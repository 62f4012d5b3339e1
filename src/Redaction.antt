-- ===== src/Redaction.antt =====
-- snulbug/redaction.py: the redaction of secrets in what the gateway records. A mapping or a sequence
-- is a JSON object or array here.
pub mod Depth
pub mod Secrets
mod Tests
use mathlib.Core.Option
use Prim.Native.String.{len, find, slice}
use text.Mathlib.Text.{starts_with}
use snulbug.Base.{
  ℕ, zero, suc, ◌-◌, ◌&&◌, ◌==◌, String, Bool, true, false, ◌||◌, Option, none, some, List, [], ◌∷◌,
  any, contains, leb, if◌then◌else◌,
}
use snulbug.Base.Json.{
  Json, Items, Fields, null, bool, int, flt, str, arr, obj, nil, cons, end, field,
}

-- What json.loads does: a value, a JSONDecodeError, or another exception, which is a ValueError for
-- an integer of too many digits and a RecursionError for too many levels.
pub data Loaded : Type 0 where
  parsed : Json → Loaded
  undecodable raises : Loaded

-- What the file takes from Python's library, and the patterns of its configuration.
pub record Platform : Type 0 where
  -- json.loads
  pub loads : String → Loaded
  -- json.dumps(value, sort_keys=True, separators=(",", ":"))
  pub dumps : Json → String
  pub lower : String → String
  -- text.replace("_", "-")
  pub dashed : String → String
  pub strip : String → String

pub record RedactionConfig : Type 0 where
  pub replacement : String
  pub secret_keys : List String
  -- for each of the patterns, λ text. pattern.sub(replacement, text)
  pub secret_patterns : List (String → String)

abbrev default_secret_keys : List String
default_secret_keys =
    "api-key" ∷ "apikey" ∷ "api_key" ∷ "authorization" ∷ "client_secret" ∷ "cookie"
    ∷ "cf-access-client-secret" ∷ "cf-access-jwt-assertion" ∷ "dpop" ∷ "password" ∷ "refresh_token"
    ∷ "requeststate" ∷ "inputresponses" ∷ "secret" ∷ "set-cookie" ∷ "snulbug-lease" ∷ "token"
    ∷ "x-snulbug-lease" ∷ "x-snulbug-renewal" ∷ "renewal_token" ∷ "x-api-key" ∷ []

-- a key whose list of names is kept as it is
unfoldable pub is_listing : Option String → Bool
is_listing none = false
is_listing (some key) =
    contains ("argument_keys" ∷ "capabilities" ∷ "methods" ∷ "params_keys" ∷ []) key

unfoldable pub substitute : List (String → String) → String → String
substitute [] text = text
substitute (sub ∷ patterns) text = substitute patterns (sub text)

-- text.endswith(last), for one character in ASCII
abbrev ends_in : String → String → Bool
ends_in text last = slice text (len text - 1) (len text) == last

unfoldable pub looks_like_json : String → Bool
looks_like_json stripped =
    (starts_with stripped "{" && ends_in stripped "}")
    || (starts_with stripped "[" && ends_in stripped "]")

module _ (py : Platform) (config : RedactionConfig) where
  -- `_is_secret_key`
  unfoldable pub is_secret_key : String → Bool
  is_secret_key key =
      let normalized = py.dashed (py.lower key) in
      contains config.secret_keys normalized
      || any (λ part. leb (find normalized part) (len normalized))
          ("token" ∷ "secret" ∷ "password" ∷ "credential" ∷ [])

  -- the first test of `_redact`
  unfoldable pub is_hidden : Option String → Bool
  unfolding is_secret_key
  is_hidden none = false
  is_hidden (some key) = is_secret_key key

  -- `_redact`, given the redaction of the values that texts of JSON hold. There is no result when an
  -- exception leaves the call: only a JSONDecodeError is caught.
  module _ (inner : Json → Option Json) where
    -- `_redact_string`
    unfoldable pub redact_string : String → Option String
    unfolding substitute looks_like_json
    redact_string text =
        let plain = some (substitute config.secret_patterns text) in
        if looks_like_json (py.strip text)
        then elim (py.loads text) [
          | undecodable ↦ plain
          | raises ↦ none
          | parsed value ↦ elim (inner value) [ none ↦ none | some v ↦ some (py.dumps v) ]
        ]
        else plain

    unfoldable mutual
      pub redact_value : Option String → Json → Option Json
      redact_value key (obj m) =
          let rest = redact_fields m in
          if is_hidden key then some (str config.replacement) else Option.map obj rest
      redact_value key (arr xs) =
          let rest = redact_items xs in
          if is_hidden key
          then some (str config.replacement)
          else if is_listing key
          then some (arr xs)
          else Option.map arr rest
      redact_value key (str s) =
          if is_hidden key then some (str config.replacement) else Option.map str (redact_string s)
      redact_value key v = if is_hidden key then some (str config.replacement) else some v

      pub redact_fields : Fields → Option Fields
      redact_fields end = some end
      redact_fields (field k v m) = elim (redact_value (some k) v) [
        | none ↦ none
        | some w ↦ Option.map (field k w) (redact_fields m)
      ]

      pub redact_items : Items → Option Items
      redact_items nil = some nil
      redact_items (cons v xs) = elim (redact_value none v) [
        | none ↦ none
        | some w ↦ Option.map (cons w) (redact_items xs)
      ]

  -- redact_secrets, for texts of JSON that hold texts of JSON, for at most `depth` levels of them:
  -- there is no result when a text is deeper, or when an exception leaves the call
  unfoldable pub redact_secrets : ℕ → Json → Option Json
  unfolding redact_value
  redact_secrets zero value = redact_value (λ v. none) none value
  redact_secrets (suc depth) value = redact_value (redact_secrets depth) none value
