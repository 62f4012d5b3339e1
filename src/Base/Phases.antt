-- ===== src/Base/Phases.antt =====
-- The order in which ASGI lets an application send its messages.
use mathlib.Core.Path.{◌≡◌, refl}
use mathlib.Core.Bool.{true, false}
use mathlib.Core.List.{List, [], ◌∷◌, ◌++◌}
use snulbug.Base.Asgi.{Sent, websocket_close, response_start, response_body}

-- ASGI's order of the messages of a response, or of a websocket that is closed at once.
pub data Phase : Type 0 where
  idle started done broken : Phase

abbrev pub next : Phase → Sent → Phase
next idle (response_start status headers) = started
next idle (websocket_close code reason) = done
next started (response_body b true) = started
next started (response_body b false) = done
next _ _ = broken

unfoldable pub phase : Phase → List Sent → Phase
phase p [] = p
phase p (m ∷ ms) = phase (next p m) ms

pub phase-broken : (l : List Sent) → phase broken l ≡ broken
unfolding phase
phase-broken [] = refl
phase-broken (m ∷ ms) = phase-broken ms

pub phase-append : (p : Phase) (l k : List Sent) → phase p (l ++ k) ≡ phase (phase p l) k
unfolding phase
phase-append p [] k = refl
phase-append p (m ∷ ms) k = phase-append (next p m) ms k
