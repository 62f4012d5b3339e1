-- ===== src/Schema/Issues.antt =====
-- `validate_schema` of snulbug/json_schema.py: what goes wrong becomes an issue.
use Prim.Native.String
use snulbug.Base.{
  ℕ, zero, suc, String, Bool, Option, none, some, List, [], ◌∷◌, map, ltb, or_else, truthy,
  if◌then◌else◌,
}
use snulbug.Base.Result.{Result, ok, err, ◌>>=◌}
use snulbug.Schema.{Value, max_schema_bytes, max_issues}
use snulbug.Schema.Size.{Verdict, accepted, non_json, check_size}

-- The exceptions that are caught: `SchemaBoundaryError` by its text, and the four other clauses.
pub data Failure : Type 0 where
  boundary : String → Failure
  schema_error unresolvable recursion evaluation : Failure

-- A part of the path of an error of the validator.
pub data Segment : Type 0 where
  index : ℕ → Segment
  key : String → Segment

-- An error of the validator, whose keyword may be missing.
pub record SchemaIssue : Type 0 where
  pub absolute_path : List Segment
  pub validator : Option String

pub record Issue : Type 0 where
  pub path : String
  pub reason_code : String
  pub message : String

-- What the file takes from libraries. `errors` are the errors that a validator gives, and the
-- exception after them, if there is one.
pub record Library (Validator : Type 0) : Type 0 where
  -- len(json.dumps(schema, separators=(",", ":"), allow_nan=False).encode())
  pub encoded_bytes : Value → Result Failure ℕ
  -- _compiled(encoded)
  pub compiled : Value → Result Failure Validator
  pub errors : Validator → Value → List SchemaIssue × Option Failure
  -- the match with [A-Za-z_][A-Za-z0-9_]*
  pub is_plain : String → Bool
  -- json.dumps of a text, and str of an index
  pub quoted : String → String
  pub str : ℕ → String
  -- re.sub(r"(?<!^)([A-Z])", r"_\1", keyword).lower()
  pub snake : String → String

-- text[:n]
abbrev pub clip : ℕ → String → String
clip zero s = String.[]
clip (suc n) String.[] = String.[]
clip (suc n) (String.◌∷◌ c s) = String.◌∷◌ c (clip n s)

abbrev take_at_most {ℓ} : {A : Type ℓ} → ℕ → List A → List A
take_at_most zero xs = []
take_at_most (suc n) [] = []
take_at_most (suc n) (x ∷ xs) = x ∷ take_at_most n xs

-- `_issue`
unfoldable pub issue : String → String → String → Issue
issue path code message = record { path = clip 512 path; reason_code = code; message = message }

-- an error of `_check_size`, raised; its loop is never out of fuel
abbrev pub raised : Option Verdict → Result Failure (Unit {0})
raised (some accepted) = ok tt
raised (some non_json) = err (boundary "schema.non_json")
raised _ = err (boundary "schema.validation_limit")

-- the issue for an exception
unfoldable pub failure_issue : String → Failure → Issue
unfolding issue
failure_issue path (boundary code) =
    issue path code "schema validation is outside the supported boundary"
failure_issue path schema_error =
    issue path "schema.invalid" "schema is not valid JSON Schema 2020-12"
failure_issue path unresolvable =
    issue path "schema.ref_unresolved" "schema reference cannot be resolved offline"
failure_issue path recursion =
    issue path "schema.ref_cycle" "schema evaluation exceeded the recursion limit"
failure_issue path evaluation = issue path "schema.invalid" "schema could not be evaluated"

module _ {Validator : Type 0} (lib : Library Validator) where
  abbrev segment_text : Segment → String
  segment_text (index n) = String.◌++◌ "[" (String.◌++◌ (lib.str n) "]")
  segment_text (key k) =
      if lib.is_plain k then String.◌++◌ "." k else String.◌++◌ "[" (String.◌++◌ (lib.quoted k) "]")

  abbrev path_text : String → List Segment → String
  path_text path [] = path
  path_text path (s ∷ segments) = path_text (String.◌++◌ path (segment_text s)) segments

  -- the issue for an error of the validator
  unfoldable pub error_issue : String → SchemaIssue → Issue
  unfolding issue
  error_issue path e =
      let keyword = or_else (truthy e.validator) "false" in
      issue (path_text path e.absolute_path) (String.◌++◌ "schema." (lib.snake keyword))
        (String.◌++◌ "value does not satisfy " keyword)

  -- list(islice(errors, n)), where the exception is met if fewer errors come before it
  unfoldable pub islice : ℕ → List SchemaIssue × Option Failure → Result Failure (List SchemaIssue)
  islice zero (es, failure) = ok []
  islice (suc n) ([], none) = ok []
  islice (suc n) ([], some failure) = err failure
  islice (suc n) (e ∷ es, failure) = islice n (es, failure) >>= (λ rest. ok (e ∷ rest))

  abbrev pub within_bytes : ℕ → Result Failure (Unit {0})
  within_bytes n =
      if ltb max_schema_bytes n then err (boundary "schema.validation_limit") else ok tt

  unfoldable pub validated : Value → Value → String → Result Failure (List Issue)
  validated value schema path = do
    _ ← raised (check_size schema)
    _ ← raised (check_size value)
    bytes ← lib.encoded_bytes schema
    _ ← within_bytes bytes
    validator ← lib.compiled schema
    found ← islice max_issues (lib.errors validator value)
    ok (map (error_issue path) found)

  -- `validate_schema`
  unfoldable pub validate_schema : Value → Value → String → List Issue
  unfolding failure_issue
  validate_schema value schema path = elim (validated value schema path) [
    | ok issues ↦ issues
    | err failure ↦ failure_issue path failure ∷ []
  ]
