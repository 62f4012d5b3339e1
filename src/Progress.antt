-- ===== src/Progress.antt =====
-- snulbug/mcp_progress.py: the gateway follows the progress and the cancellation of requests, in a
-- policy state store. Durations are microseconds.
pub mod Keys
pub mod Track
pub mod Check
pub mod Enforce
pub mod Monotonic
mod Tests
use snulbug.Base.{
  ℕ, zero, suc, ◌^◌, ◌&&◌, String, Bool, true, false, not, Option, none, some, if◌then◌else◌,
}
use snulbug.Base.Int.{ℤ, pos, negsuc, ◌*ℤ◌, ltb_ℤ}
use snulbug.Base.Json.{Json, null, bool, int, flt, str, arr, obj}

-- What the file takes from Python's library.
pub record Platform : Type 0 where
  pub loads : String → Option Json
  -- json.dumps(record, separators=(",", ":"))
  pub dumps : Json → String
  -- hashlib.sha256(json.dumps(value, sort_keys=True, ...)).hexdigest()
  pub token_hash : Json → String
  -- which of the floats stand for a NaN, which json.loads reads as well
  pub is_nan : Json → Bool
  pub str : Json → String

pub data Action : Type 0 where
  allow warn block : Action

-- `ProgressPolicyConfig`
pub record ProgressPolicyConfig : Type 0 where
  pub action : Action
  pub progress_rate_limit : ℕ
  pub progress_rate_window : ℕ
  pub state_ttl : ℕ

-- isinstance(value, int | float) and not isinstance(value, bool)
abbrev pub is_number : Json → Bool
is_number (int n) = true
is_number (flt n e) = true
is_number _ = false

-- A number as a mantissa and a power of two; Python counts a bool as a number too.
abbrev pub parts_of : Json → Option (ℤ × ℤ)
parts_of (int n) = some (n, pos 0)
parts_of (flt n e) = some (n, e)
parts_of (bool true) = some (pos 1, pos 0)
parts_of (bool false) = some (pos 0, pos 0)
parts_of _ = none

abbrev raise_by : ℤ → ℕ
raise_by (pos n) = 2 ^ n
raise_by (negsuc n) = 1

abbrev lower_by : ℤ → ℕ
lower_by (pos n) = 1
lower_by (negsuc n) = 2 ^ suc n

-- a < b, for numbers as Python compares them, exactly
unfoldable pub less : ℤ × ℤ → ℤ × ℤ → Bool
less (a, e) (b, f) =
    ltb_ℤ (a *ℤ pos (raise_by e) *ℤ pos (lower_by f)) (b *ℤ pos (raise_by f) *ℤ pos (lower_by e))

-- a < b for values, false unless both are numbers, and false with a NaN
unfoldable pub less_than : Platform → Json → Json → Bool
unfolding less
less_than py a b = elim (parts_of a) [
  | none ↦ false
  | some x ↦ elim (parts_of b) [
    | none ↦ false
    | some y ↦ not (py.is_nan a) && not (py.is_nan b) && less x y
  ]
]
