-- ===== src/Backoff/Record.antt =====
-- `record_deny` of snulbug/policy_backoff.py, and the answer while a backoff is active.
use Prim.Native.String
use snulbug.Base.{
  ℕ, ◌+◌, ◌-◌, String, Bool, not, ◌&&◌, Option, none, some, [], ◌∷◌, contains, if◌then◌else◌,
}
use snulbug.Base.Result.{Result, ok, err, ◌>>=◌}
use snulbug.Base.Int.{ℤ, pos, negsuc, ◌+ℤ◌}
use snulbug.Base.Json
use snulbug.Base.Json.{Json, Fields, int, str, obj, end, field, truth}
use snulbug.State.{PolicyStateStore}
use snulbug.Backoff.{Platform, PolicyBackoffConfig, BackoffError, overflow_error, matches_any}
use snulbug.Backoff.Keys.{lookup_key, deny_key}
use snulbug.Backoff.Deny.{
  Metadata, metadata_from_record, decode_record, int_or_zero, text_or, whole_seconds, smaller,
  larger, second,
}

-- max(0, count - 1)
abbrev pub exponent : ℤ → ℕ
exponent (pos n) = n - 1
exponent (negsuc n) = 0

-- `_delay_seconds`
unfoldable pub delay_seconds : Platform → PolicyBackoffConfig → ℤ → String → Result BackoffError ℕ
delay_seconds py config count key = elim (py.grown (exponent count)) [
  | none ↦ err overflow_error
  | some grown ↦
      let delay = smaller config.max_seconds grown in
      let byte = py.first_byte (String.◌++◌ key (String.◌++◌ ":" (py.str (int count)))) in
      ok (
        if not config.jitter
        then delay
        else larger second (smaller config.max_seconds (py.jittered delay byte)))
]

abbrev or_now : Platform → ℕ → Option Json → Json
or_now py now none = py.seconds now
or_now py now (some v) = if truth v then v else py.seconds now

-- the dictionary that `record_deny` writes
unfoldable pub deny_record :
    Platform → ℕ → ℤ → ℕ → String → String → Option Json → String → String → Fields → Fields
deny_record py now count delay reason_code action created_at lookup deny parts =
    field "version" (int (pos 1)) (
      field "count" (int count) (
        field "reason_code" (str reason_code) (
          field "action" (str action) (
            field "delay_seconds" (py.seconds delay) (
              field "retry_after" (int (pos (whole_seconds delay))) (
                field "cooldown_until" (py.seconds (now + delay)) (
                  field "created_at" (or_now py now created_at) (
                    field "updated_at" (py.seconds now) (
                      field "lookup_key" (str lookup)
                        (field "deny_key" (str deny) (field "key_parts" (obj parts) end)))))))))))

-- What `record_deny` says.
pub data Denial : Type 0 where
  disabled store_missing : Denial
  action_not_denied reason_code_not_selected : String → Denial
  recorded : Metadata → String → String → Fields → Denial

module _ (py : Platform) (config : PolicyBackoffConfig) (key_prefix : String) where
  unfoldable pub is_selected : String → Bool
  unfolding matches_any
  is_selected reason_code =
      matches_any reason_code config.reason_codes
      && not (matches_any reason_code config.exclude_reason_codes)

  -- the record of one more denial after what was found
  unfoldable pub next_record :
      ℕ → String → String → String → String → Fields → Fields → Result BackoffError (ℕ × Fields)
  unfolding delay_seconds deny_record
  next_record now reason_code action lookup deny parts previous = do
    count ← int_or_zero py (Json.get previous "count")
    delay ← delay_seconds py config (count +ℤ pos 1) deny
    ok (
      delay,
      deny_record py now (count +ℤ pos 1) delay reason_code action (Json.get previous "created_at")
          lookup deny parts,
    )

  -- the two writes
  unfoldable pub write_record :
      {S : Type 0} → PolicyStateStore S → ℕ → String → String → ℕ → Fields → S → S
  write_record store now lookup deny delay written s =
      let encoded = py.dumps (obj written) in
      let ttl = some (larger config.window_seconds delay) in
      store.put now (store.put now s deny encoded ttl) lookup encoded ttl

  unfoldable pub record_on :
      {S : Type 0}
      → PolicyStateStore S
      → ℕ
      → String
      → String
      → String × Fields
      → String × Fields
      → S
      → Result BackoffError Denial × S
  record_on store now reason_code action lookup deny s =
      let found = store.get now s deny.0 in
      elim (next_record now reason_code action lookup.0 deny.0 deny.1 (decode_record py found.0)) [
        | err e ↦ (err e, found.1)
        | ok (delay, written) ↦ (
          metadata_from_record py written >>= (λ m. ok (recorded m lookup.0 deny.0 lookup.1)),
          write_record store now lookup.0 deny.0 delay written found.1,
        )
      ]

  -- `record_deny`
  unfoldable pub record_deny :
      {S : Type 0}
      → Option (PolicyStateStore S)
      → ℕ
      → Fields
      → Fields
      → Fields
      → S
      → Result BackoffError Denial × S
  record_deny none now request scope decision s =
      (ok (if config.enabled then store_missing else disabled), s)
  record_deny (some store) now request scope decision s =
      let action = text_or py (Json.get decision "action") "" in
      let reason_code = text_or py (Json.get decision "reason_code") "unknown" in
      if not config.enabled
      then (ok disabled, s)
      else if not (contains ("reject" ∷ "challenge" ∷ []) action)
      then (ok (action_not_denied action), s)
      else if not (is_selected reason_code)
      then (ok (reason_code_not_selected reason_code), s)
      else elim (lookup_key py config key_prefix request scope) [
        | err e ↦ (err e, s)
        | ok lookup ↦ elim (deny_key py config key_prefix request scope decision) [
          | err e ↦ (err e, s)
          | ok deny ↦ record_on store now reason_code action lookup deny s
        ]
      ]
