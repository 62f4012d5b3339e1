-- ===== src/Backoff.antt =====
-- snulbug/policy_backoff.py: a client whose requests a policy denies waits longer each time. Seconds
-- are microseconds here.
pub mod Keys
pub mod Deny
pub mod Record
pub mod Reply
pub mod Counts
pub mod Hold
mod Tests
use Prim.Native.String
use text.Mathlib.Text.{starts_with}
use snulbug.Base.{ℕ, String, Bool, true, false, Option, List, ◌==◌, ◌||◌, any, if◌then◌else◌}
use snulbug.Base.Int.{ℤ}
use snulbug.Base.Json.{Json, Fields}

-- What the file takes from Python's library.
pub record Platform : Type 0 where
  pub loads : String → Option Json
  -- json.dumps(value, sort_keys=True, separators=(",", ":"))
  pub dumps : Json → String
  -- hashlib.sha256(text).hexdigest(), and the first byte of the digest
  pub sha256 : String → String
  pub first_byte : String → ℕ
  pub str : Json → String
  -- int(value), and float(value) as microseconds, where they do not raise
  pub int : Json → Option ℤ
  pub float_seconds : Json → Option ℤ
  -- a time or a duration as a float of seconds
  pub seconds : ℕ → Json
  -- base_seconds * factor ** exponent, which raises when the power is no float
  pub grown : ℕ → Option ℕ
  -- delay * (0.8 + (byte / 255.0) * 0.4)
  pub jittered : ℕ → ℕ → ℕ
  -- text.split(".")
  pub split_dots : String → List String

-- What the code may raise: for an empty client, a value that is no number, or a power that is no
-- float.
pub data BackoffError : Type 0 where
  index_error value_error overflow_error : BackoffError

-- `PolicyBackoffConfig`; `base_seconds` and `factor` stand in `Platform.grown`.
pub record PolicyBackoffConfig : Type 0 where
  pub enabled : Bool
  pub max_seconds : ℕ
  pub window_seconds : ℕ
  pub jitter : Bool
  pub status : ℕ
  pub reason_codes : List String
  pub exclude_reason_codes : List String
  pub key_fields : List String

-- pattern[:-1], if the pattern ends with "*"
abbrev starred : String → Option String
starred String.[] = Option.none
starred (String.◌∷◌ c String.[]) =
    if String.◌∷◌ c String.[] == "*" then Option.some String.[] else Option.none
starred (String.◌∷◌ c (String.◌∷◌ d s)) = elim (starred (String.◌∷◌ d s)) [
  | Option.none ↦ Option.none
  | Option.some rest ↦ Option.some (String.◌∷◌ c rest)
]

-- `_matches_pattern` and `_matches_any`
unfoldable pub matches_pattern : String → String → Bool
matches_pattern value pattern =
    if pattern == "*" || pattern == value then true else elim (starred pattern) [
      | Option.none ↦ false
      | Option.some prefix ↦ starts_with value prefix
    ]

unfoldable pub matches_any : String → List String → Bool
unfolding matches_pattern
matches_any value patterns = any (matches_pattern value) patterns
