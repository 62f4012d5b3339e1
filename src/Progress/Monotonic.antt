-- ===== src/Progress/Monotonic.antt =====
-- What a notification of progress that snulbug/mcp_progress.py follows has shown, on a memory store.
use snulbug.Base.{
  ℕ, ◌+◌, ◌<◌, ◌≡◌, inl, inr, String, true, false, none, some, arith, Option-cases, ◌==◌, eq_refl,
}
use snulbug.Base.Result.{ok}
use snulbug.Base.Json
use snulbug.Base.Json.{Json, Fields, obj, is_true}
use snulbug.State.{IntText}
use snulbug.State.Memory.{Items, memory_store, get, put}
use snulbug.State.Memory.Refinement.{view, get-view, view-put}
use snulbug.Progress.{Platform, ProgressPolicyConfig, is_number, less_than}
use snulbug.Progress.Keys.{progress_key, load_json}
use snulbug.Progress.Check.{
  Progress, followed, parse_progress, record_issue, falls_back, advanced, follow,
}

falls_back-less :
    (py : Platform) (previous progress : Json)
    → is_number previous ≡ true
    → py.is_nan previous ≡ false
    → py.is_nan progress ≡ false
    → falls_back py (some previous) progress ≡ false
    → less_than py previous progress ≡ true
unfolding falls_back
falls_back-less py (Json.int n) progress number there here h = ground arith
falls_back-less py (Json.flt n e) progress number there here h = ground arith
falls_back-less py Json.null progress number there here h = absurd (ground arith)
falls_back-less py (Json.bool b) progress number there here h = absurd (ground arith)
falls_back-less py (Json.str s) progress number there here h = absurd (ground arith)
falls_back-less py (Json.arr xs) progress number there here h = absurd (ground arith)
falls_back-less py (Json.obj m) progress number there here h = absurd (ground arith)

record_issue-none :
    (py : Platform) (record_ : Fields) (progress : Json)
    → record_issue py record_ progress ≡ none
    → falls_back py (Json.get record_ "last_progress") progress ≡ false
unfolding record_issue
record_issue-none py record_ progress h = ground arith

parse_progress-number :
    (py : Platform) (message : Fields) (p : Progress)
    → parse_progress py message ≡ ok p
    → is_number p.progress ≡ true
unfolding parse_progress
parse_progress-number py message p h = ground arith

get-advanced :
    (record_ : Fields) (p : Progress)
    → Json.get (advanced record_ p) "last_progress" ≡ some p.progress
unfolding advanced
get-advanced record_ p = elim (Option-cases p.total) [
  | inl missing ↦ grind (arith, Json.get-put, missing)
  | inr (total, given) ↦ grind (arith, Json.get-put, given)
]

module _ (ints : IntText) (py : Platform) (config : ProgressPolicyConfig) where
  follow-written :
      (now : ℕ) (p : Progress) (s end : Items)
      → follow (memory_store ints) py config now p s ≡ (followed, end)
      → (record_issue py (load_json py (view s now (progress_key py p.token))) p.progress ≡ none)
        × (end
            ≡ put now
                (get now s (progress_key py p.token)).1
                (progress_key py p.token)
                (py.dumps (obj (advanced (load_json py (view s now (progress_key py p.token))) p)))
                (some config.state_ttl))
  unfolding follow
  follow-written now p s end h =
      let found = get-view now s (progress_key py p.token) in
      elim (Option-cases
        (record_issue py (load_json py (view s now (progress_key py p.token))) p.progress)) [
          | inl fine ↦ (fine, ground (arith, found, fine))
          | inr (reason, bad) ↦ absurd (ground (arith, found, bad))
        ]

  -- A followed notification is what the store has of its token, until the record expires.
  follow-view :
      (now t : ℕ) (p : Progress) (s end : Items)
      → follow (memory_store ints) py config now p s ≡ (followed, end)
      → t < now + config.state_ttl
      → view end t (progress_key py p.token)
        ≡ some (py.dumps (obj (advanced (load_json py (view s now (progress_key py p.token))) p)))
  follow-view now t p s end h early =
      let key = progress_key py p.token in
      let text = py.dumps (obj (advanced (load_json py (view s now key)) p)) in
      ground (
        arith,
        (follow-written now p s end h).1,
        view-put now t (get now s key).1 key key text (some config.state_ttl),
        eq_refl key,
      )

  load_json-text :
      (text : String) (r : Fields)
      → (text == "") ≡ false
      → py.loads text ≡ some (obj r)
      → load_json py (some text) ≡ r
  unfolding load_json
  load_json-text text r full read_back = ground (arith, full, read_back)

  -- Progress that is no NaN rises: when two notifications of one token are followed, both with a
  -- progress that is no NaN, the second while the record of the first lasts, and what others did to the store in between left the record of the token as it
  -- was, then the second reports more progress than the first. The text of the record that the first
  -- one writes is assumed to be read back and not to be empty.
  pub follow-rises :
      (now t : ℕ) (first second : Fields) (p q : Progress) (s s1 s2 s3 : Items)
      → parse_progress py first ≡ ok p
      → parse_progress py second ≡ ok q
      → q.token ≡ p.token
      → follow (memory_store ints) py config now p s ≡ (followed, s1)
      → t < now + config.state_ttl
      → view s2 t (progress_key py p.token) ≡ view s1 t (progress_key py p.token)
      → follow (memory_store ints) py config t q s2 ≡ (followed, s3)
      → (py.dumps (obj (advanced (load_json py (view s now (progress_key py p.token))) p)) == "")
        ≡ false
      → py.loads (py.dumps (obj (advanced (load_json py (view s now (progress_key py p.token))) p)))
        ≡ some (obj (advanced (load_json py (view s now (progress_key py p.token))) p))
      → py.is_nan p.progress ≡ false
      → py.is_nan q.progress ≡ false
      → less_than py p.progress q.progress ≡ true
  follow-rises now t first second p q s s1 s2 s3 one two same h early kept_ h2 full read_back real
        next_real =
      let r = advanced (load_json py (view s now (progress_key py p.token))) p in
      let seen : view s2 t (progress_key py q.token) ≡ some (py.dumps (obj r)) =
        cc (same, kept_, follow-view now t p s s1 h early) in
      let read : load_json py (view s2 t (progress_key py q.token)) ≡ r =
        cc (seen, load_json-text (py.dumps (obj r)) r full read_back) in
      let fine = record_issue-none py _ q.progress (follow-written t q s2 s3 h2).0 in
      let last = get-advanced (load_json py (view s now (progress_key py p.token))) p in
      falls_back-less py p.progress q.progress (parse_progress-number py first p one) real next_real
        (cc (fine, read, last))
