-- ===== src/Cache/Limit.antt =====
-- What the boundary of snulbug/mcp_cache.py holds in memory.
use mathlib.Core.Path.{subst}
use Prim.Native.String.{count}
use Prim.Native.String
use text.Mathlib.TextLemmas as Laws
use snulbug.Base.{
  ℕ, ◌+◌, ◌≤◌, sym, inl, inr, String, Bool, Option, none, some, List, [], ◌∷◌, arith, on_if,
  Bool-cases, Option-cases, leb, ltb, ◌==◌, leb→le,
}
use snulbug.Base.Json.{Fields}
use snulbug.Base.Asgi.{Header, Sent, websocket_close, response_start, response_body}
use snulbug.Cache.{Platform}
use snulbug.Cache.Boundary.{
  Output, Boundary, Event, receives, sends, new, capture, uncached, content_type, finish, gather,
  send_body, send_start, pass, safe_send, step, run,
}

-- The bytes that are held of a request and of a response.
abbrev pub IsBounded : ℕ → Boundary → Type 0
IsBounded limit s = (count s.request_body ≤ limit) × (count s.response_body ≤ limit)

abbrev After : ℕ → Output × Boundary → Type 0
After limit r = IsBounded limit r.1

joined : (limit : ℕ) (a b : String) → count a + count b ≤ limit → count (String.◌++◌ a b) ≤ limit
joined limit a b h = omega (arith, h, Laws.length-append a b)

module _ (limit : ℕ) where
  capture-IsBounded :
      (body : Option String) (s : Boundary)
      → IsBounded limit s
      → IsBounded limit (capture limit body s)
  unfolding capture
  capture-IsBounded none s h = h
  capture-IsBounded (some body) s h = elim (Bool-cases s.request_overflow) [
    | inl e ↦ rw (e) h
    | inr e ↦ elim (Bool-cases (leb (count s.request_body + count body) limit)) [
      | inl f ↦ rw (e, f) ((joined limit s.request_body body (leb→le _ _ f), h.1))
      | inr f ↦ rw (e, f) ((omega arith, h.1))
    ]
  ]

  module _ (py : Platform) where
    finish-IsBounded :
        (start : ℕ × List Header) (sealed : String × Fields) (s : Boundary)
        → IsBounded limit s
        → After limit (finish py limit start sealed s)
    unfolding finish
    finish-IsBounded start sealed s h =
        on_if (After limit) (ltb limit (count sealed.0)) (h.0, omega arith) (h.0, omega arith)

    gather-IsBounded :
        (start : ℕ × List Header) (body : String) (more : Bool) (s : Boundary)
        → IsBounded limit s
        → After limit (gather py limit start body more s)
    unfolding gather
    gather-IsBounded start body more s h =
        elim (Bool-cases (ltb limit (count s.response_body + count body))) [
          | inl e ↦ rw (e) ((h.0, omega arith))
          | inr e ↦
              let fits : count s.response_body + count body ≤ limit = ground (arith, e) in
              let held = joined limit s.response_body body fits in
              rw (e) (
                on_if (After limit) more (h.0, held)
                  (finish-IsBounded start _
                    (record s { response_body = String.◌++◌ s.response_body body }) (h.0, held)))
        ]

    pass-IsBounded : (m : Sent) (s : Boundary) → IsBounded limit s → After limit (pass py limit m s)
    unfolding pass send_start send_body
    pass-IsBounded (websocket_close code reason) s h = h
    pass-IsBounded (response_start status headers) s h =
        on_if (After limit) (content_type py (uncached py headers) == "application/json") h h
    pass-IsBounded (response_body body more) s h = elim (Option-cases s.start) [
      | inl e ↦ subst (λ x. After limit (send_body py limit x body more s)) (sym e) h
      | inr e ↦
          subst (λ x. After limit (send_body py limit x body more s)) (sym e.1)
            (gather-IsBounded e.0 body more s h)
    ]

    run-keeps :
        (events : List Event) (s : Boundary)
        → IsBounded limit s
        → IsBounded limit (run py limit events s).1
    unfolding run step safe_send
    run-keeps [] s h = h
    run-keeps (receives body ∷ events) s h =
        run-keeps events (capture limit body s) (capture-IsBounded body s h)
    run-keeps (sends m ∷ events) s h =
        run-keeps events (safe_send py limit m s).1
          (on_if (After limit) s.rejected h (pass-IsBounded m s h))

    -- Whatever the client and the application send, the boundary never holds more bytes of a request
    -- or of a response than the limit.
    pub run-IsBounded : (events : List Event) → IsBounded limit (run py limit events new).1
    unfolding new
    run-IsBounded events = run-keeps events new (omega arith, omega arith)
