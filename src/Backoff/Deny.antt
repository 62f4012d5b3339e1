-- ===== src/Backoff/Deny.antt =====
-- `PolicyDenyBackoff` of snulbug/policy_backoff.py on a policy state store.
use snulbug.Base.{ℕ, ◌+◌, ◌-◌, ◌/◌, String, not, Option, none, some, truthy, leb, if◌then◌else◌}
use snulbug.Base.Int.{ℤ, pos, negsuc}
use snulbug.Base.Result.{Result, ok, err, ◌>>=◌}
use snulbug.Base.Json
use snulbug.Base.Json.{Json, Fields, null, bool, int, flt, str, obj, end, field, mapping, truth}
use snulbug.State.{PolicyStateStore}
use snulbug.Backoff.{Platform, PolicyBackoffConfig, BackoffError, value_error}
use snulbug.Backoff.Keys.{lookup_key}

-- str(value or default)
abbrev pub text_or : Platform → Option Json → String → String
text_or py none default = default
text_or py (some v) default = if truth v then py.str v else default

abbrev pub number : Option ℤ → Result BackoffError ℤ
number none = err value_error
number (some n) = ok n

-- int(value or 0) and float(value or 0.0)
abbrev pub int_or_zero : Platform → Option Json → Result BackoffError ℤ
int_or_zero py none = ok (pos 0)
int_or_zero py (some v) = if truth v then number (py.int v) else ok (pos 0)

abbrev float_or_zero : Platform → Option Json → Result BackoffError ℤ
float_or_zero py none = ok (pos 0)
float_or_zero py (some v) = if truth v then number (py.float_seconds v) else ok (pos 0)

-- `_float_value`
unfoldable pub float_value : Platform → Option Json → Option ℤ
float_value py (some (bool b)) = py.float_seconds (bool b)
float_value py (some (int n)) = py.float_seconds (int n)
float_value py (some (flt n e)) = py.float_seconds (flt n e)
float_value py (some (str s)) = py.float_seconds (str s)
float_value py _ = none

-- `_decode_record`
unfoldable pub decode_record : Platform → Option String → Fields
decode_record py value = elim (truthy value) [ none ↦ end | some text ↦ mapping (py.loads text) ]

-- What `_metadata_from_record` reads from a record.
pub record Metadata : Type 0 where
  pub count : ℤ
  pub retry_after : ℤ
  pub delay_seconds : ℤ
  pub cooldown_until : Option Json
  pub original_reason_code : Option Json
  pub deny_key : Option Json
  pub key_parts : Option Json

-- `_metadata_from_record`
unfoldable pub metadata_from_record : Platform → Fields → Result BackoffError Metadata
metadata_from_record py record_ = do
  count ← int_or_zero py (Json.get record_ "count")
  retry_after ← int_or_zero py (Json.get record_ "retry_after")
  delay ← float_or_zero py (Json.get record_ "delay_seconds")
  ok (record {
    count = count;
    retry_after = retry_after;
    delay_seconds = delay;
    cooldown_until = Json.get record_ "cooldown_until";
    original_reason_code = Json.get record_ "reason_code";
    deny_key = Json.get record_ "deny_key";
    key_parts = Json.get record_ "key_parts";
  })

abbrev pub second : ℕ
second = 1000000

abbrev pub smaller : ℕ → ℕ → ℕ
smaller a b = if leb a b then a else b

abbrev pub larger : ℕ → ℕ → ℕ
larger a b = if leb a b then b else a

-- max(1, math.ceil(d)) for a duration
abbrev pub whole_seconds : ℕ → ℕ
whole_seconds d = larger 1 ((d + 999999) / second)

-- cooldown_until > now, and by how much
abbrev pub remaining : Option ℤ → ℕ → Option ℕ
remaining none now = none
remaining (some (negsuc n)) now = none
remaining (some (pos n)) now = if leb n now then none else some (n - now)

-- What `preflight` says.
pub data Preflight : Type 0 where
  disabled store_missing : Preflight
  unknown : String → Fields → Preflight
  over : String → Fields → ℤ → Option Json → Preflight
  active : Metadata → String → Fields → ℕ → Preflight

module _ (py : Platform) (config : PolicyBackoffConfig) (key_prefix : String) where
  -- `preflight` for a record that was found
  unfoldable pub judge : ℕ → String → Fields → Fields → Result BackoffError Preflight
  unfolding float_value metadata_from_record
  judge now key parts found =
      elim (remaining (float_value py (Json.get found "cooldown_until")) now) [
        | none ↦
            int_or_zero py (Json.get found "count")
            >>= (λ count. ok (over key parts count (Json.get found "reason_code")))
        | some left ↦
            metadata_from_record py found
            >>= (λ metadata. ok (active metadata key parts (whole_seconds left)))
      ]

  abbrev pub preflight_on :
      {S : Type 0}
      → PolicyStateStore S
      → ℕ
      → S
      → String
      → Fields
      → Result BackoffError Preflight × S
  preflight_on store now s key parts =
      let found = store.get now s key in
      elim (truthy found.0) [
        | none ↦ (ok (unknown key parts), found.1)
        | some encoded ↦ (judge now key parts (decode_record py (some encoded)), found.1)
      ]

  -- `preflight`
  unfoldable pub preflight :
      {S : Type 0}
      → Option (PolicyStateStore S)
      → ℕ
      → Fields
      → Fields
      → S
      → Result BackoffError Preflight × S
  preflight none now request scope s = (ok (if config.enabled then store_missing else disabled), s)
  preflight (some store) now request scope s =
      if not config.enabled
      then (ok disabled, s)
      else elim (lookup_key py config key_prefix request scope) [
        | err e ↦ (err e, s)
        | ok (key, parts) ↦ preflight_on store now s key parts
      ]
