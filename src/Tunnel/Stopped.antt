-- ===== src/Tunnel/Stopped.antt =====
-- What ends the supervision of snulbug/share_runtime.py.
use snulbug.Base.{◌≡◌, ◌∙◌, refl, true, false, none, List, [], ◌∷◌, arith}
use snulbug.Tunnel.{ShareRuntimeConfig, Runtime}
use snulbug.Tunnel.Depth.{not_due-reconcile}
use snulbug.Tunnel.Supervise.{
  Moment, is_closed, observe, is_due, reconcile, tick, start, stop, close,
}

-- No process, and no restart is wanted.
pub record IsIdle (s : Runtime) : Type 0 where
  pub process : s.process ≡ none
  pub desired : s.desired ≡ false

-- the rounds of the monitor, each with its moments
pub ticks : ShareRuntimeConfig → List (List Moment) → Runtime → Runtime
ticks config [] s = s
ticks config (ms ∷ rounds) s = ticks config rounds (tick config ms s)

observe-idle :
    (config : ShareRuntimeConfig) (m : Moment) (s : Runtime) → IsIdle s → observe config m s ≡ s
unfolding observe
observe-idle config m s h = ground (arith, h.process)

reconcile-idle :
    (config : ShareRuntimeConfig) (ms : List Moment) (s : Runtime)
    → IsIdle s
    → reconcile config ms s ≡ s
unfolding reconcile
reconcile-idle config [] s h = refl
reconcile-idle config (m ∷ ms) s h =
    not_due-reconcile config m ms s
      (rw (observe-idle config m s h) (unfold is_due in ground (arith, h.desired)))
    ∙ observe-idle config m s h

tick-idle :
    (config : ShareRuntimeConfig) (ms : List Moment) (s : Runtime) → IsIdle s → tick config ms s ≡ s
unfolding tick
tick-idle config ms s h = ground (arith, reconcile-idle config ms s h)

ticks-idle :
    (config : ShareRuntimeConfig) (rounds : List (List Moment)) (s : Runtime)
    → IsIdle s
    → ticks config rounds s ≡ s
unfolding ticks
ticks-idle config [] s h = refl
ticks-idle config (ms ∷ rounds) s h = rw (tick-idle config ms s h) (ticks-idle config rounds s h)

pub tick-closed :
    (config : ShareRuntimeConfig) (ms : List Moment) (s : Runtime)
    → s.closed ≡ true
    → tick config ms s ≡ s
unfolding tick
tick-closed config ms s h = ground (arith, h)

ticks-closed :
    (config : ShareRuntimeConfig) (rounds : List (List Moment)) (s : Runtime)
    → s.closed ≡ true
    → ticks config rounds s ≡ s
unfolding ticks
ticks-closed config [] s h = refl
ticks-closed config (ms ∷ rounds) s h =
    rw (tick-closed config ms s h) (ticks-closed config rounds s h)

-- After a stop the monitor changes nothing, whatever it meets and however often it runs.
ticks-stop :
    (config : ShareRuntimeConfig) (rounds : List (List Moment)) (s : Runtime)
    → ticks config rounds (stop s) ≡ stop s
unfolding stop
ticks-stop config rounds s =
    ticks-idle config rounds (stop s) (record { process = refl; desired = refl })

close-closed : (s : Runtime) → (close s).closed ≡ true
unfolding close
close-closed s = ground arith

-- After a close the monitor changes nothing, a start is refused and changes nothing, and another
-- close changes nothing.
pub ticks-close :
    (config : ShareRuntimeConfig) (rounds : List (List Moment)) (s : Runtime)
    (before ms : List Moment) (m : Moment)
    → (ticks config rounds (close s) ≡ close s)
      × (start config before m ms (close s) ≡ (is_closed, close s))
      × (close (close s) ≡ close s)
unfolding start
ticks-close config rounds s before ms m = (
  ticks-closed config rounds (close s) (close-closed s),
  ground (arith, close-closed s),
  unfold close in ground arith,
)
