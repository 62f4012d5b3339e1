-- ===== src/Schema/Closed.antt =====
-- When `validate_schema` of snulbug/json_schema.py reports nothing, and how much it reports.
use snulbug.Base.{
  ℕ, zero, suc, ◌≤◌, ◌≡◌, ◌↔◌, inl, inr, refl, String, Option, none, some, List, [], ◌∷◌, length,
  map, arith,
}
use snulbug.Base.Result.{ok, Result-cases, bind-ok}
use snulbug.Schema.{Value, max_schema_bytes, max_issues}
use snulbug.Schema.Size.{Verdict, accepted, validation_limit, non_json, check_size}
use snulbug.Schema.Issues.{
  Failure, SchemaIssue, Issue, Library, raised, within_bytes, islice, validated, validate_schema,
  error_issue,
}

map-nothing {ℓ κ} : {A : Type ℓ} {B : Type κ} (f : A → B) (xs : List A) → [] ≡ map f xs → xs ≡ []
map-nothing f [] h = refl
map-nothing f (x ∷ xs) h = absurd (cc h)

length-map {ℓ κ} :
    {A : Type ℓ} {B : Type κ} (f : A → B) (xs : List A) → length (map f xs) ≡ length xs
length-map f [] = refl
length-map f (x ∷ xs) = ground (arith, length-map f xs)

module _ {Validator : Type 0} (lib : Library Validator) where
  -- A schema that can be used, and a value that has no error.
  pub record IsValid (value schema : Value) : Type 0 where
    pub bytes : ℕ
    pub validator : Validator
    pub schema_sized : check_size schema ≡ some accepted
    pub value_sized : check_size value ≡ some accepted
    pub encoded : lib.encoded_bytes schema ≡ ok bytes
    pub small : bytes ≤ max_schema_bytes
    pub compiled : lib.compiled schema ≡ ok validator
    pub no_errors : lib.errors validator value ≡ ([], none)

  islice-length :
      (n : ℕ) (es : List SchemaIssue × Option Failure) (found : List SchemaIssue)
      → islice lib n es ≡ ok found
      → length found ≤ n
  unfolding islice
  islice-length zero (es, failure) found h = ground arith
  islice-length (suc n) ([], none) found h = ground arith
  islice-length (suc n) ([], some failure) found h = ground arith
  islice-length (suc n) (e ∷ es, failure) found h =
      elim (Result-cases (islice lib n (es, failure))) [
        | inl (e', bad) ↦ absurd (ground (arith, bad))
        | inr (rest, good) ↦ ground (arith, good, islice-length n (es, failure) rest good)
      ]

  islice-none :
      (n : ℕ) (es : List SchemaIssue × Option Failure)
      → islice lib (suc n) es ≡ ok []
      → es ≡ ([], none)
  unfolding islice
  islice-none n ([], none) h = refl
  islice-none n ([], some failure) h = absurd (ground arith)
  islice-none n (e ∷ es, failure) h = elim (Result-cases (islice lib n (es, failure))) [
    | inl (e', bad) ↦ absurd (ground (arith, bad))
    | inr (rest, good) ↦ absurd (ground (arith, good))
  ]

  raised-accepted : (r : Option Verdict) → raised r ≡ ok tt → r ≡ some accepted
  raised-accepted none h = absurd (ground arith)
  raised-accepted (some accepted) h = refl
  raised-accepted (some validation_limit) h = absurd (ground arith)
  raised-accepted (some non_json) h = absurd (ground arith)

  -- The steps of a validation that has a result.
  pub record IsDone (value schema : Value) (path : String) (issues : List Issue) : Type 0 where
    pub bytes : ℕ
    pub validator : Validator
    pub found : List SchemaIssue
    pub schema_sized : check_size schema ≡ some accepted
    pub value_sized : check_size value ≡ some accepted
    pub encoded : lib.encoded_bytes schema ≡ ok bytes
    pub small : bytes ≤ max_schema_bytes
    pub compiled : lib.compiled schema ≡ ok validator
    pub taken : islice lib max_issues (lib.errors validator value) ≡ ok found
    pub issues_are : issues ≡ map (error_issue lib path) found

  validated-IsDone :
      (value schema : Value) (path : String) (issues : List Issue)
      → validated lib value schema path ≡ ok issues
      → IsDone value schema path issues
  unfolding validated
  validated-IsDone value schema path issues h =
      let (u, sized, h1) = bind-ok (raised (check_size schema)) _ issues h in
      let (u', value_sized, h2) = bind-ok (raised (check_size value)) _ issues h1 in
      let (bytes, encoded, h3) = bind-ok (lib.encoded_bytes schema) _ issues h2 in
      let (u'', small, h4) = bind-ok (within_bytes lib bytes) _ issues h3 in
      let (validator, compiled, h5) = bind-ok (lib.compiled schema) _ issues h4 in
      let (found, taken, h6) =
        bind-ok (islice lib max_issues (lib.errors validator value)) _ issues h5 in
      record {
        bytes = bytes;
        validator = validator;
        found = found;
        schema_sized = raised-accepted (check_size schema) sized;
        value_sized = raised-accepted (check_size value) value_sized;
        encoded = encoded;
        small = ground (arith, small);
        compiled = compiled;
        taken = taken;
        issues_are = ground (arith, h6);
      }

  valid-validated :
      (value schema : Value) (path : String)
      → IsValid value schema
      → validated lib value schema path ≡ ok []
  unfolding validated islice
  valid-validated value schema path v =
      simp (v.schema_sized, v.value_sized, v.encoded, v.compiled, v.no_errors)
        (ground (arith, v.small))

  IsDone-nothing :
      (value schema : Value) (path : String) → IsDone value schema path [] → IsValid value schema
  IsDone-nothing value schema path d = record {
    bytes = d.bytes;
    validator = d.validator;
    schema_sized = d.schema_sized;
    value_sized = d.value_sized;
    encoded = d.encoded;
    small = d.small;
    compiled = d.compiled;
    no_errors =
        islice-none 19 (lib.errors d.validator value)
          (ground (arith, d.taken, map-nothing (error_issue lib path) d.found d.issues_are));
  }

  -- The issues of a validation are at most twenty, and there is none exactly when the schema and the
  -- value are within the limits, the schema is encoded in at most 256 KiB and compiled, and its
  -- validator finds no error and raises nothing.
  pub validate_schema-closed :
      (value schema : Value) (path : String)
      → (length (validate_schema lib value schema path) ≤ max_issues)
        × ((validate_schema lib value schema path ≡ []) ↔ IsValid value schema)
  unfolding validate_schema
  validate_schema-closed value schema path = elim (Result-cases (validated lib value schema path)) [
    | inl (failure, failed) ↦ (
      ground (arith, failed),
      (
        λ h. absurd (ground (arith, failed)),
        λ v. absurd (ground (arith, failed, valid-validated value schema path v)),
      ),
    )
    | inr (issues, passed) ↦
        let done = validated-IsDone value schema path issues passed in
        (
          ground (
            arith,
            passed,
            done.issues_are,
            length-map (error_issue lib path) done.found,
            islice-length max_issues (lib.errors done.validator value) done.found done.taken,
          ),
          (
            λ h.
                IsDone-nothing value schema path
                  (validated-IsDone value schema path [] (ground (arith, passed, h))),
            λ v. ground (arith, passed, valid-validated value schema path v),
          ),
        )
  ]
