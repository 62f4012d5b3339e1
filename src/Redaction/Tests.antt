-- ===== src/Redaction/Tests.antt =====
-- Runs of snulbug/redaction.py.
use snulbug.Base.{◌≡◌, refl, String, true, none, some, [], ◌∷◌, ◌==◌, if◌then◌else◌}
use snulbug.Base.Json
use snulbug.Base.Json.{Json, str, bool, obj, arr, nil, cons, end, field}
use snulbug.Redaction.{
  Loaded, parsed, undecodable, raises, Platform, RedactionConfig, default_secret_keys,
  redact_secrets, redact_value, redact_string, is_hidden, is_secret_key, is_listing, substitute,
}
use snulbug.Redaction.Secrets.{member, item, follow, nth, redact_secrets-hides}

abbrev held : Json
held = arr (cons (str "ab") nil)

-- more than 42 bytes, for which the loads below raises a ValueError
abbrev many_digits : String
many_digits = "{111111111111111111111111111111111111111111111111111111111111}"

abbrev loads : String → Loaded
loads s = if s == "[\"ab\"]" then parsed held else if s == many_digits then raises else undecodable

abbrev platform : Platform
platform = record {
  loads = loads;
  dumps = λ v. "printed";
  lower = λ s. s;
  dashed = λ s. s;
  strip = λ s. s;
}

abbrev config : RedactionConfig
config = record {
  replacement = "[REDACTED]";
  secret_keys = default_secret_keys;
  secret_patterns = (λ s. if s == "sk-1" then "[REDACTED]" else s) ∷ [];
}

abbrev request : Json
request = obj (
    field "headers" (obj (field "cookie" (obj (field "a" (str "b") end)) end)) (
      field "body" (arr (cons (obj (field "my_password" (str "x") end)) (cons (str "sk-1") nil))) (
        field "methods" (arr (cons (obj (field "token" (str "kept") end)) nil))
          (field "text" (str "[\"ab\"]") end))))

abbrev redacted : Json
redacted = obj (
    field "headers" (obj (field "cookie" (str "[REDACTED]") end)) (
      field "body"
        (arr
          (cons (obj (field "my_password" (str "[REDACTED]") end)) (cons (str "[REDACTED]") nil)))
        (field "methods" (arr (cons (obj (field "token" (str "kept") end)) nil))
          (field "text" (str "printed") end))))

redacts : redact_secrets platform config 1 request ≡ some redacted
unfolding redact_secrets redact_value redact_string is_hidden is_secret_key is_listing substitute
redacts = refl

reaches :
    follow none (member "body" ∷ item 0 ∷ member "my_password" ∷ []) redacted
    ≡ some (some "my_password", str "[REDACTED]")
unfolding follow nth Json.get is_listing
reaches = refl

password_is_secret : is_secret_key platform config "my_password" ≡ true
unfolding is_secret_key
password_is_secret = refl

redact_secrets-hides_example : str "[REDACTED]" ≡ str config.replacement
redact_secrets-hides_example =
    redact_secrets-hides platform config 1 (member "body" ∷ item 0 ∷ member "my_password" ∷ [])
      request redacted (str "[REDACTED]") "my_password" redacts reaches password_is_secret

raises_out : redact_secrets platform config 5 (str many_digits) ≡ none
unfolding redact_secrets redact_value redact_string is_hidden
raises_out = refl
