-- ===== src/Mounts/Answer.antt =====
-- The messages that a mount of snulbug/http_routes.py sends for one request.
use mathlib.Core.List.{List, [], ◌∷◌, map}
use snulbug.Base.{
  on_if, ℕ, zero, suc, ◌≡◌, ◌≢◌, refl, sym, ap, ◌∙◌, ◌⊎◌, inl, inr, String, Bool, true, false, not,
  Option, none, some, contains, if◌then◌else◌, is_some,
}
use snulbug.Base.Asgi.{Header, Scope, Sent, websocket_close, response_body}
use snulbug.Base.Phases.{
  Phase, idle, started, done, broken, next, phase, phase-broken, phase-append,
}
use snulbug.Mounts.{Target, Platform, Route}
use mathlib.Core.Path.{subst}
use text.Mathlib.Text.{◌==◌}
use snulbug.Origin.{public_origin, OriginError, PublicOrigin}
use snulbug.Base.Result.{Result, ok, err}
use snulbug.Mounts.Serve.{
  Content, content, send_on, take, timed_out, unavailable, other, Received, request_body,
  disconnect, Request, Reply, refused, responded, Failure, client_disconnected, Run, respond,
  interrupted, relay, forward, answer, error,
}

phase-chunks :
    (chunks : List String) → phase started (map (λ b. response_body b true) chunks) ≡ started
unfolding phase
phase-chunks [] = refl
phase-chunks (b ∷ bs) = phase-chunks bs

-- what was sent when the client left
phase-take : (n : ℕ) (p : Phase) (l : List Sent) → phase p l ≢ broken → phase p (take n l) ≢ broken
unfolding phase take
phase-take zero p l h e = h (subst (λ q. phase q l ≡ broken) (sym e) (phase-broken l))
phase-take (suc n) p [] h e = h e
phase-take (suc n) p (m ∷ ms) h e = phase-take n (next p m) ms h e

phase-respond :
    (status : ℕ) (headers : List Header) (chunks : List String) (ending : Option Failure)
    → phase idle (respond status headers chunks ending).sent
      ≡ (if is_some ending then started else done)
unfolding respond phase
phase-respond status headers chunks none =
    phase-append started (map (λ b. response_body b true) chunks) (response_body "" false ∷ [])
    ∙ ap (λ p. phase p (response_body "" false ∷ [])) (phase-chunks chunks)
phase-respond status headers chunks (some client_disconnected) = phase-chunks chunks
phase-respond status headers chunks (some timed_out) = phase-chunks chunks
phase-respond status headers chunks (some unavailable) = phase-chunks chunks
phase-respond status headers chunks (some other) = phase-chunks chunks

abbrev closed : List Sent
closed = websocket_close 1008 "HTTP routes do not support WebSockets" ∷ []

closed-done : phase idle closed ≡ done
unfolding phase
closed-done = refl

closed-in_order : phase idle closed ≢ broken
closed-in_order e = absurd (cc (e, closed-done))

abbrev InOrder : Run → Type 0
InOrder run = phase idle run.sent ≢ broken

idle-in_order : phase idle [] ≢ broken
unfolding phase
idle-in_order e = absurd (cc e)

-- the client left while the reply was made
abbrev pub is_left : Reply → Bool
is_left (refused client_disconnected) = true
is_left (responded status headers chunks (some client_disconnected)) = true
is_left _ = false

-- the run raises, or its response is complete
abbrev pub IsAnswered : Run → Type 0
IsAnswered run = (run.raised ≡ true) ⊎ (phase idle run.sent ≡ done)

not_broken : (p q : Phase) → p ≡ q → q ≢ broken → p ≢ broken
not_broken p q e h b = h (sym e ∙ b)

if-not_broken : (b : Bool) → (if b then started else done) ≢ broken
if-not_broken true e = absurd (cc e)
if-not_broken false e = absurd (cc e)

respond-IsAnswered :
    (status : ℕ) (headers : List Header) (chunks : List String) (ending : Option Failure)
    → is_left (responded status [] chunks ending) ≡ false
    → IsAnswered (respond status headers chunks ending)
unfolding respond
respond-IsAnswered status headers chunks none h = inr (phase-respond status headers chunks none)
respond-IsAnswered status headers chunks (some client_disconnected) h = absurd (cc h)
respond-IsAnswered status headers chunks (some timed_out) h = inl refl
respond-IsAnswered status headers chunks (some unavailable) h = inl refl
respond-IsAnswered status headers chunks (some other) h = inl refl

module _ (py : Platform) where
  error-done :
      (status : ℕ) (text : String) (allow : List String)
      → phase idle (error py status text allow) ≡ done
  unfolding error phase
  error-done status text allow = refl

  error-in_order :
      (status : ℕ) (text : String) (allow : List String)
      → phase idle (error py status text allow) ≢ broken
  error-in_order status text allow e = absurd (cc (e, error-done status text allow))

  relay-in_order : (route : Route) (reply : Reply) → phase idle (relay py route reply).sent ≢ broken
  unfolding relay
  relay-in_order route (responded status headers chunks ending) =
      not_broken _ (if is_some ending then started else done) (phase-respond status _ chunks ending)
        (if-not_broken (is_some ending))
  relay-in_order route (refused client_disconnected) = idle-in_order
  relay-in_order route (refused timed_out) = error-in_order 504 "HTTP route upstream timed out" []
  relay-in_order route (refused unavailable) =
      error-in_order 502 "HTTP route upstream unavailable" []
  relay-in_order route (refused other) = idle-in_order

  relay-IsAnswered :
      (route : Route) (reply : Reply) → is_left reply ≡ false → IsAnswered (relay py route reply)
  unfolding relay
  relay-IsAnswered route (responded status headers chunks ending) h =
      respond-IsAnswered status _ chunks ending h
  relay-IsAnswered route (refused client_disconnected) h = absurd (cc h)
  relay-IsAnswered route (refused timed_out) h =
      inr (error-done 504 "HTTP route upstream timed out" [])
  relay-IsAnswered route (refused unavailable) h =
      inr (error-done 502 "HTTP route upstream unavailable" [])
  relay-IsAnswered route (refused other) h = inl refl

  module _ (lease_header : String) (exchange : Request → Reply) where
    send_on-in_order :
        (route : Route) (scope : Scope) (raw_path : String) (content : Content)
        (base : Option Target) (origin : Result OriginError (Option PublicOrigin))
        → phase idle
            (send_on py lease_header exchange route scope raw_path content base origin).sent
          ≢ broken
    unfolding send_on
    send_on-in_order route scope raw_path content (some base) (ok origin) = relay-in_order route _
    send_on-in_order route scope raw_path content none _ = idle-in_order
    send_on-in_order route scope raw_path content (some base) (err e) = idle-in_order

    send_on-IsAnswered :
        (route : Route) (scope : Scope) (raw_path : String) (content : Content)
        (base : Option Target) (origin : Result OriginError (Option PublicOrigin))
        → ((r : Request) → is_left (exchange r) ≡ false)
        → IsAnswered (send_on py lease_header exchange route scope raw_path content base origin)
    unfolding send_on
    send_on-IsAnswered route scope raw_path content (some base) (ok origin) stays =
        relay-IsAnswered route _ (stays _)
    send_on-IsAnswered route scope raw_path content none _ stays = inl refl
    send_on-IsAnswered route scope raw_path content (some base) (err e) stays = inl refl

    forward-in_order :
        (route : Route) (scope : Scope) (raw_path : String) (messages : List Received)
        → phase idle (forward py lease_header exchange route scope raw_path messages).sent ≢ broken
    unfolding forward
    forward-in_order route scope raw_path [] = idle-in_order
    forward-in_order route scope raw_path (disconnect ∷ ms) = idle-in_order
    forward-in_order route scope raw_path (request_body b more ∷ ms) =
        send_on-in_order route scope raw_path (content b more ms) _ _

    interrupted-in_order :
        (left : Option ℕ) (run : Run)
        → phase idle run.sent ≢ broken
        → phase idle (interrupted left run).sent ≢ broken
    unfolding interrupted
    interrupted-in_order none run h = h
    interrupted-in_order (some n) run h = phase-take n idle run.sent h

    -- Whatever the request, the client and the upstream do, and whenever the client leaves, the
    -- messages that a mount sends follow ASGI's order: at most one start of a response, bodies only
    -- after it, and nothing after the last body or after the close of a websocket.
    pub answer-in_order :
        (route : Route) (scope : Scope) (messages : List Received) (left : Option ℕ)
        → phase idle (answer py lease_header exchange route scope messages left).sent ≢ broken
    unfolding answer
    answer-in_order route scope messages left =
        on_if InOrder (scope.type == "websocket") closed-in_order (
          on_if InOrder (not (contains route.methods scope.method))
            (error-in_order 405 "HTTP method is not allowed for this mount" route.methods)
            (on_if InOrder _ (error-in_order 400 "Invalid route path" [])
              (interrupted-in_order left _ (forward-in_order route scope _ messages))))

    -- When the client sends a first message and stays, and no exchange ends because it left, a mount
    -- either answers completely, with a last body or the close of a websocket, or raises an exception.
    pub answer-IsAnswered :
        (route : Route) (scope : Scope) (b : String) (more : Bool) (ms : List Received)
        → ((r : Request) → is_left (exchange r) ≡ false)
        → IsAnswered (answer py lease_header exchange route scope (request_body b more ∷ ms) none)
    unfolding answer forward interrupted
    answer-IsAnswered route scope b more ms stays =
        on_if IsAnswered (scope.type == "websocket") (inr closed-done) (
          on_if IsAnswered (not (contains route.methods scope.method))
            (inr (error-done 405 "HTTP method is not allowed for this mount" route.methods))
            (on_if IsAnswered _ (inr (error-done 400 "Invalid route path" [])) (
              send_on-IsAnswered route scope _ (content b more ms) (py.httpx_url route.upstream)
                (public_origin py.library route.public_origin) stays)))
