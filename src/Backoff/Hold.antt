-- ===== src/Backoff/Hold.antt =====
-- A denial of snulbug/policy_backoff.py holds the requests with the same key off until its delay is
-- over, on a memory store.
use snulbug.Base.{
  ℕ, ◌+◌, ◌-◌, ◌≤◌, ◌<◌, ◌≡◌, ◌⊎◌, inl, inr, String, Bool, true, false, some, [], ◌∷◌, contains,
  leb, arith, Bool-cases, ◌==◌, eq_refl,
}
use snulbug.Base.Int.{pos}
use snulbug.Base.Result.{Result, ok, ◌>>=◌}
use snulbug.Base.Json
use snulbug.Base.Json.{Json, Fields, int, obj}
use snulbug.State.{IntText}
use snulbug.State.Memory.{Items, memory_store, get, put}
use snulbug.State.Memory.Refinement.{view, view-put, get-view}
use snulbug.Backoff.{Platform, PolicyBackoffConfig, BackoffError}
use snulbug.Backoff.Keys.{lookup_key, deny_key}
use snulbug.Backoff.Deny.{
  Preflight, active, float_value, decode_record, metadata_from_record, judge, preflight, text_or,
  whole_seconds, larger,
}
use snulbug.Backoff.Record.{is_selected, next_record, write_record, record_on, record_deny}
use snulbug.Backoff.Counts.{next_record-counts}

abbrev pub is_active : Result BackoffError Preflight → Bool
is_active (ok (active m key parts seconds)) = true
is_active _ = false

module _ (py : Platform) (config : PolicyBackoffConfig) (key_prefix : String) where
  -- What is read of the key that was written last, while the record lasts.
  view-write_record :
      (ints : IntText) (now t delay : ℕ) (lookup deny : String) (written : Fields) (s : Items)
      → t < now + larger config.window_seconds delay
      → view
          (write_record py config key_prefix (memory_store ints) now lookup deny delay written s)
          t
          lookup
        ≡ some (py.dumps (obj written))
  unfolding write_record
  view-write_record ints now t delay lookup deny written s early =
      let encoded = py.dumps (obj written) in
      let ttl = some (larger config.window_seconds delay) in
      ground (
        arith,
        view-put now t (put now s deny encoded ttl) lookup lookup encoded ttl,
        eq_refl lookup,
      )

  record_on-writes :
      (ints : IntText) (now delay : ℕ) (reason action : String) (lookup deny : String × Fields)
      (written : Fields) (s : Items)
      → next_record py config key_prefix now reason action lookup.0 deny.0 deny.1
          (decode_record py (view s now deny.0))
        ≡ ok (delay, written)
      → (record_on py config key_prefix (memory_store ints) now reason action lookup deny s).1
        ≡ write_record py config key_prefix
            (memory_store ints)
            now
            lookup.0
            deny.0
            delay
            written
            (get now s deny.0).1
  unfolding record_on
  record_on-writes ints now delay reason action lookup deny written s made =
      let hit : next_record py config key_prefix now reason action lookup.0 deny.0 deny.1
            (decode_record py (get now s deny.0).0)
          ≡ ok (delay, written) =
        cc (get-view now s deny.0, made) in
      ground (arith, hit)

  decode-written :
      (written : Fields)
      → py.loads (py.dumps (obj written)) ≡ some (obj written)
      → (py.dumps (obj written) == "") ≡ false
      → decode_record py (some (py.dumps (obj written))) ≡ written
  unfolding decode_record
  decode-written written read_back full = ground (arith, read_back, full)

  preflight-reads :
      (ints : IntText) (t : ℕ) (request scope parts written : Fields) (lookup : String) (s : Items)
      → config.enabled ≡ true
      → lookup_key py config key_prefix request scope ≡ ok (lookup, parts)
      → py.loads (py.dumps (obj written)) ≡ some (obj written)
      → (py.dumps (obj written) == "") ≡ false
      → view s t lookup ≡ some (py.dumps (obj written))
      → (preflight py config key_prefix (some (memory_store ints)) t request scope s).0
        ≡ judge py config key_prefix t lookup parts written
  unfolding preflight
  preflight-reads ints t request scope parts written lookup s on looked read_back full seen =
      let here : (get t s lookup).0 ≡ some (py.dumps (obj written)) =
        cc (get-view t s lookup, seen) in
      ground (arith, on, looked, here, full, decode-written written read_back full)

  -- Which of the two cases a time is in, by what the record says of its cooldown.
  judge-remaining :
      (t until : ℕ) (lookup : String) (parts written : Fields)
      → float_value py (Json.get written "cooldown_until") ≡ some (pos until)
      → ((t < until)
          × (judge py config key_prefix t lookup parts written ≡ (
              metadata_from_record py written
              >>= (λ m. ok (active m lookup parts (whole_seconds (until - t)))))))
        ⊎ ((until ≤ t) × (is_active (judge py config key_prefix t lookup parts written) ≡ false))
  unfolding judge
  judge-remaining t until lookup parts written cooldown = elim (Bool-cases (leb until t)) [
    | inr running ↦ inl (ground (arith, running), ground (arith, cooldown, running))
    | inl over ↦ inr (ground (arith, over), ground (arith, cooldown, over))
  ]

  -- A selected denial whose keys are found and whose record is made holds the client off. On a memory
  -- store, a request with the same lookup key that comes at a time from the denial to the end of its
  -- window or delay, whichever is later, meets the backoff if and only if the delay is not over: then
  -- it is told the whole seconds that are left, at least one, and what the record says. The record's
  -- text is assumed to be read back as it was written and not to be empty, and a float of seconds to
  -- be read back as its duration.
  pub deny-holds :
      (ints : IntText) (now t delay : ℕ) (request scope decision parts deny_parts written : Fields)
      (lookup deny : String) (s : Items)
      → config.enabled ≡ true
      → contains ("reject" ∷ "challenge" ∷ []) (text_or py (Json.get decision "action") "") ≡ true
      → is_selected py config key_prefix (text_or py (Json.get decision "reason_code") "unknown")
        ≡ true
      → lookup_key py config key_prefix request scope ≡ ok (lookup, parts)
      → deny_key py config key_prefix request scope decision ≡ ok (deny, deny_parts)
      → next_record py config key_prefix now
          (text_or py (Json.get decision "reason_code") "unknown")
          (text_or py (Json.get decision "action") "")
          lookup
          deny
          deny_parts
          (decode_record py (view s now deny))
        ≡ ok (delay, written)
      → py.loads (py.dumps (obj written)) ≡ some (obj written)
      → (py.dumps (obj written) == "") ≡ false
      → ((n : ℕ) → float_value py (some (py.seconds n)) ≡ some (pos n))
      → now ≤ t
      → t < now + larger config.window_seconds delay
      → ((t < now + delay)
          × ((preflight py config key_prefix
                (some (memory_store ints))
                t
                request
                scope
                (record_deny py config key_prefix
                  (some (memory_store ints))
                  now
                  request
                  scope
                  decision
                  s).1).0
              ≡ (metadata_from_record py written
                  >>= (λ m. ok (active m lookup parts (whole_seconds (now + delay - t)))))))
        ⊎ ((now + delay ≤ t)
            × (is_active
                  (preflight py config key_prefix
                    (some (memory_store ints))
                    t
                    request
                    scope
                    (record_deny py config key_prefix
                      (some (memory_store ints))
                      now
                      request
                      scope
                      decision
                      s).1).0
                ≡ false))
  deny-holds ints now t delay request scope decision parts deny_parts written lookup deny s on
        denied selected looked denies made read_back full clock late early =
      let after =
        (record_deny py config key_prefix (some (memory_store ints)) now request scope decision
          s).1 in
      let reason = text_or py (Json.get decision "reason_code") "unknown" in
      let action = text_or py (Json.get decision "action") "" in
      let before = (get now s deny).1 in
      let writes : after
          ≡ write_record py config key_prefix (memory_store ints) now lookup deny delay written
              before =
        (unfold record_deny in
          ground (
            arith,
            on,
            denied,
            selected,
            looked,
            denies,
            record_on-writes ints now delay reason action (lookup, parts) (deny, deny_parts) written
                s made,
          )) in
      let seen : view after t lookup ≡ some (py.dumps (obj written)) =
        cc (writes, view-write_record ints now t delay lookup deny written before early) in
      let reads =
        preflight-reads ints t request scope parts written lookup after on looked read_back full
          seen in
      let (count, before_it, counted, cooldown, bound) =
        next_record-counts py config key_prefix now reason action lookup deny deny_parts
          (decode_record py (view s now deny)) written delay made in
      elim (judge-remaining t (now + delay) lookup parts written
        (cc (cooldown, clock (now + delay)))) [
          | inl (running, says) ↦ inl (running, cc (reads, says))
          | inr (over, says) ↦ inr (over, cc (reads, says))
        ]
