-- ===== src/Backoff/Counts.antt =====
-- What the record of a denial of snulbug/policy_backoff.py says.
use snulbug.Base.{ℕ, ◌+◌, ◌≤◌, ◌≡◌, refl, String, Option, some, arith}
use snulbug.Base.Int.{ℤ, pos, ◌+ℤ◌}
use snulbug.Base.Result.{ok, bind-ok}
use snulbug.Base.Json
use snulbug.Base.Json.{Json, Fields, int, obj}
use snulbug.Backoff.{Platform, PolicyBackoffConfig}
use snulbug.Backoff.Deny.{int_or_zero, larger, second}
use snulbug.Backoff.Record.{delay_seconds, deny_record, next_record}

module _ (py : Platform) (config : PolicyBackoffConfig) (key_prefix : String) where
  delay_seconds-bound :
      (count : ℤ) (key : String) (delay : ℕ)
      → delay_seconds py config count key ≡ ok delay
      → delay ≤ larger second config.max_seconds
  unfolding delay_seconds
  delay_seconds-bound count key delay h = ground arith

  deny_record-says :
      (now : ℕ) (count : ℤ) (delay : ℕ) (reason_code action : String) (created : Option Json)
      (lookup deny : String) (parts : Fields)
      → (Json.get
            (deny_record py now count delay reason_code action created lookup deny parts)
            "count"
          ≡ some (int count))
        × (Json.get
              (deny_record py now count delay reason_code action created lookup deny parts)
              "cooldown_until"
            ≡ some (py.seconds (now + delay)))
  unfolding deny_record Json.get
  deny_record-says now count delay reason_code action created lookup deny parts = (refl, refl)

  -- What the record of a denial says: one denial more than the record before it, a cooldown that ends
  -- after the delay, and a delay of at most the greater of a second and `max_seconds`.
  pub next_record-counts :
      (now : ℕ) (reason_code action lookup deny : String) (parts previous written : Fields)
      (delay : ℕ)
      → next_record py config key_prefix now reason_code action lookup deny parts previous
        ≡ ok (delay, written)
      → (count : ℤ) × (int_or_zero py (Json.get previous "count") ≡ ok count)
        × (Json.get written "count" ≡ some (int (count +ℤ pos 1)))
        × (Json.get written "cooldown_until" ≡ some (py.seconds (now + delay)))
        × (delay ≤ larger second config.max_seconds)
  unfolding next_record
  next_record-counts now reason_code action lookup deny parts previous written delay h =
      let (count, same, h1) =
        bind-ok (int_or_zero py (Json.get previous "count")) _ (delay, written) h in
      let (late, delayed, h2) =
        bind-ok (delay_seconds py config (count +ℤ pos 1) deny) _ (delay, written) h1 in
      let bound = delay_seconds-bound (count +ℤ pos 1) deny late delayed in
      let says =
        deny_record-says now (count +ℤ pos 1) late reason_code action
          (Json.get previous "created_at") lookup deny parts in
      let pair : (late ≡ delay)
          × (deny_record py now (count +ℤ pos 1) late reason_code action
                (Json.get previous "created_at") lookup deny parts
              ≡ written) =
        ground (arith, h2) in
      (count, same, cc (says.0, pair.1), cc (says.1, pair.0, pair.1), ground (arith, bound, pair.0))
