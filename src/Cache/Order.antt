-- ===== src/Cache/Order.antt =====
-- The order of the messages that leave the boundary of snulbug/mcp_cache.py.
use mathlib.Core.Path.{subst}
use Prim.Native.String.{count}
use Prim.Native.String
use snulbug.Base.{
  ℕ, ◌+◌, ◌≡◌, ◌≢◌, refl, sym, ◌∙◌, ◌⊎◌, inl, inr, String, Bool, true, false, Option, none, some,
  List, [], ◌∷◌, on_if, Bool-cases, Option-cases, leb, ltb, ◌==◌, if◌then◌else◌,
}
use snulbug.Base.Json.{Fields}
use snulbug.Base.Asgi.{Header, Sent, websocket_close, response_start, response_body}
use snulbug.Base.Phases.{
  Phase, idle, started, done, broken, next, phase, phase-broken, phase-append,
}
use snulbug.Cache.{Platform}
use snulbug.Cache.Boundary.{
  quiet, Output, Boundary, Event, reject, receives, sends, new, too_large, capture, uncached,
  content_type, finish, gather, send_body, send_start, pass, safe_send, step, run,
}

-- what the application sends
abbrev pub told : List Event → List Sent
told [] = []
told (receives body ∷ events) = told events
told (sends m ∷ events) = m ∷ told events

-- What has left, for what was told: all of it, nothing while a start is held back, or the complete
-- refusal.
abbrev Related : Phase → Bool → Option (ℕ × List Header) → Phase → Type 0
Related a true start o = o ≡ done
Related a false (some held) o = (a ≡ started) × (o ≡ idle)
Related a false none o = o ≡ a

abbrev Follows : Phase → Boundary → Phase → Type 0
Follows a s o = Related a s.rejected s.start o

abbrev Ends : Phase → Phase → Output × Boundary → Type 0
Ends o a r = Follows a r.1 (phase o r.0.sent)

Related-in_order :
    (a o : Phase) (rejected : Bool) (start : Option (ℕ × List Header))
    → Related a rejected start o
    → a ≢ broken
    → (o ≢ broken) × ((a ≢ done) ⊎ (o ≡ done))
Related-in_order a o true start r h = (λ e. absurd (cc (r, e)), inr r)
Related-in_order a o false (some held) r h =
    (λ e. absurd (cc (r.1, e)), inl (λ e. absurd (cc (r.0, e))))
Related-in_order idle o false none r h = (λ e. h (sym r ∙ e), inl (λ e. absurd (cc e)))
Related-in_order started o false none r h = (λ e. h (sym r ∙ e), inl (λ e. absurd (cc e)))
Related-in_order done o false none r h = (λ e. h (sym r ∙ e), inr r)
Related-in_order broken o false none r h = absurd (h refl)

module _ (s : Boundary) (fresh : s.rejected ≡ false) where
  not_rejected :
      (a : Phase) (start : Option (ℕ × List Header)) (o : Phase)
      → Related a false start o
      → Related a s.rejected start o
  not_rejected a start o r = subst (λ b. Related a b start o) (sym fresh) r

  reject-Ends : (a : Phase) → Ends idle a (reject s)
  unfolding too_large phase
  reject-Ends a = refl

  module _ (py : Platform) (limit : ℕ) where
    finish-Ends :
        (start : ℕ × List Header) (sealed : String × Fields)
        → Ends idle done (finish py limit start sealed s)
    unfolding finish phase
    finish-Ends start sealed =
        on_if (Ends idle done) (ltb limit (count sealed.0)) (reject-Ends done)
          (not_rejected done none done refl)

module _ (py : Platform) (limit : ℕ) where
  gather-Ends :
      (s : Boundary) (start : ℕ × List Header) (body : String) (more : Bool)
      → s.rejected ≡ false
      → s.start ≡ some start
      → Ends idle (next started (response_body body more)) (gather py limit start body more s)
  unfolding gather phase
  gather-Ends s start body true fresh held =
      on_if (Ends idle started) (ltb limit (count s.response_body + count body))
        (reject-Ends s fresh started)
        (not_rejected s fresh started s.start idle
          (subst (λ x. Related started false x idle) (sym held) (refl, refl)))
  gather-Ends s start body false fresh held =
      on_if (Ends idle done) (ltb limit (count s.response_body + count body))
        (reject-Ends s fresh done)
        (finish-Ends (record s { response_body = String.◌++◌ s.response_body body }) fresh py limit
          start _)

  -- a message while no start is held back
  plain-Ends :
      (m : Sent) (a : Phase) (s : Boundary)
      → s.rejected ≡ false
      → s.start ≡ none
      → next a m ≢ broken
      → Ends a (next a m) (pass py limit m s)
  unfolding pass send_body send_start phase
  plain-Ends (websocket_close code reason) a s fresh held ordered =
      not_rejected s fresh (next a (websocket_close code reason)) s.start
        (next a (websocket_close code reason))
        (subst
          (λ x.
            Related (next a (websocket_close code reason)) false x
              (next a (websocket_close code reason)))
          (sym held) refl)
  plain-Ends (response_body body more) a s fresh held ordered =
      subst (λ x. Ends a (next a (response_body body more)) (send_body py limit x body more s))
        (sym held)
        (not_rejected s fresh (next a (response_body body more)) s.start
          (next a (response_body body more))
          (subst
            (λ x.
              Related (next a (response_body body more)) false x (next a (response_body body more)))
            (sym held) refl))
  plain-Ends (response_start status headers) idle s fresh held ordered =
      on_if (Ends idle started) (content_type py (uncached py headers) == "application/json")
        (not_rejected s fresh started (some (status, uncached py headers)) idle (refl, refl))
        (not_rejected s fresh started s.start started
          (subst (λ x. Related started false x started) (sym held) refl))
  plain-Ends (response_start status headers) started s fresh held ordered = absurd (ordered refl)
  plain-Ends (response_start status headers) done s fresh held ordered = absurd (ordered refl)
  plain-Ends (response_start status headers) broken s fresh held ordered = absurd (ordered refl)

  -- a message while a start is held back
  held-Ends :
      (m : Sent) (start : ℕ × List Header) (s : Boundary)
      → s.rejected ≡ false
      → s.start ≡ some start
      → next started m ≢ broken
      → Ends idle (next started m) (pass py limit m s)
  unfolding pass send_body
  held-Ends (websocket_close code reason) start s fresh held ordered = absurd (ordered refl)
  held-Ends (response_start status headers) start s fresh held ordered = absurd (ordered refl)
  held-Ends (response_body body more) start s fresh held ordered =
      subst
        (λ x. Ends idle (next started (response_body body more)) (send_body py limit x body more s))
        (sym held) (gather-Ends s start body more fresh held)

  fresh-Ends :
      (m : Sent) (a o : Phase) (s : Boundary)
      → s.rejected ≡ false
      → Related a false s.start o
      → next a m ≢ broken
      → Ends o (next a m) (pass py limit m s)
  fresh-Ends m a o s fresh r ordered = elim (Option-cases s.start) [
    | inl e ↦
        let same : o ≡ a = subst (λ x. Related a false x o) e r in
        subst (λ p. Ends p (next a m) (pass py limit m s)) (sym same)
          (plain-Ends m a s fresh e ordered)
    | inr e ↦
        let both : (a ≡ started) × (o ≡ idle) = subst (λ x. Related a false x o) e.1 r in
        subst (λ p. Ends p (next a m) (pass py limit m s)) (sym both.1)
          (subst (λ p. Ends idle (next p m) (pass py limit m s)) (sym both.0)
            (held-Ends m e.0 s fresh e.1 (subst (λ p. next p m ≢ broken) both.0 ordered)))
  ]

  safe_send-Ends :
      (m : Sent) (a o : Phase) (s : Boundary)
      → Follows a s o
      → next a m ≢ broken
      → Ends o (next a m) (safe_send py limit m s)
  unfolding safe_send phase
  safe_send-Ends m a o s r ordered = elim (Bool-cases s.rejected) [
    | inl e ↦
        let refused : o ≡ done = subst (λ b. Related a b s.start o) e r in
        subst (λ b. Ends o (next a m) (if b then (quiet, s) else pass py limit m s)) (sym e)
          (subst (λ b. Related (next a m) b s.start o) (sym e) refused)
    | inr e ↦
        subst (λ b. Ends o (next a m) (if b then (quiet, s) else pass py limit m s)) (sym e)
          (fresh-Ends m a o s e (subst (λ b. Related a b s.start o) e r) ordered)
  ]

  capture-Follows :
      (body : Option String) (a o : Phase) (s : Boundary)
      → Follows a s o
      → Follows a (capture limit body s) o
  unfolding capture
  capture-Follows none a o s r = r
  capture-Follows (some body) a o s r =
      on_if (λ x. Follows a x o) s.request_overflow r
        (on_if (λ x. Follows a x o) (leb (count s.request_body + count body) limit) r r)

  run-Follows :
      (events : List Event) (a o : Phase) (s : Boundary)
      → Follows a s o
      → phase a (told events) ≢ broken
      → Follows
          (phase a (told events))
          (run py limit events s).1
          (phase o (run py limit events s).0)
  unfolding run step phase
  run-Follows [] a o s r ordered = r
  run-Follows (receives body ∷ events) a o s r ordered =
      run-Follows events a o (capture limit body s) (capture-Follows body a o s r) ordered
  run-Follows (sends m ∷ events) a o s r ordered =
      let one = safe_send py limit m s in
      let good : next a m ≢ broken = λ e.
        ordered
          (subst (λ p. phase p (told events) ≡ broken) (sym e) (phase-broken (told events))) in
      subst (λ p. Follows (phase (next a m) (told events)) (run py limit events one.1).1 p)
        (sym (phase-append o one.0.sent (run py limit events one.1).0))
        (run-Follows events (next a m) (phase o one.0.sent) one.1 (safe_send-Ends m a o s r good)
          ordered)

  -- When the application sends its messages in ASGI's order, whatever it and the client send, so do
  -- those that leave the boundary; and when its response is complete, so is the one that leaves.
  pub run-in_order :
      (events : List Event)
      → phase idle (told events) ≢ broken
      → (phase idle (run py limit events new).0 ≢ broken)
        × ((phase idle (told events) ≢ done) ⊎ (phase idle (run py limit events new).0 ≡ done))
  unfolding new
  run-in_order events ordered =
      let last = (run py limit events new).1 in
      Related-in_order (phase idle (told events)) _ last.rejected last.start
        (run-Follows events idle idle new refl ordered) ordered
