-- ===== src/Tunnel/Supervise.antt =====
-- The operations of `ShareRuntime` in snulbug/share_runtime.py. A reconciliation that restarts the
-- process reconciles again after it has slept, so it is given a list of moments, one for each.
use snulbug.Base.{
  ℕ, ◌+◌, ◌-◌, Bool, true, false, not, ◌&&◌, ◌||◌, Option, none, some, List, [], ◌∷◌, leb, is_some,
  if◌then◌else◌,
}
use snulbug.Base.Int.{ℤ}
use snulbug.Tunnel.{ShareRuntimeConfig, Runtime, stopped, draining, exited, record_exit}
use snulbug.Tunnel.Launch.{Host, Plan, launch, spawned, is_started}

-- What a reconciliation meets: the time, the exit code of the process if it has ended, and the
-- plan and the host for a launch.
pub record Moment : Type 0 where
  pub now : ℕ
  pub poll : Option ℤ
  pub plan : Option Plan
  pub host : Host

-- a process that has run for long enough clears the attempts
abbrev is_reset : ShareRuntimeConfig → ℕ → Option ℕ → Bool
is_reset config now none = false
is_reset config now (some t) = leb config.restart_reset (now - t)

unfoldable pub reset : ShareRuntimeConfig → ℕ → Runtime → Runtime
reset config now s = if is_reset config now s.started_at then record s { attempts = 0 } else s

-- the first half of `_reconcile_locked`: an exit of the process is recorded
unfoldable pub observe : ShareRuntimeConfig → Moment → Runtime → Runtime
unfolding reset
observe config m s = elim s.process [
  | none ↦ s
  | some pid ↦ elim m.poll [
    | none ↦ reset config m.now s
    | some code ↦
        record_exit config m.now (some code) (exited code)
          (record (reset config m.now s) { process = none })
  ]
]

abbrev is_past : Option ℕ → ℕ → Bool
is_past none now = false
is_past (some t) now = leb t now

-- the second half: whether a restart is due. While the process runs the first half returns.
unfoldable pub is_due : ℕ → Runtime → Bool
is_due now s = not (is_some s.process) && s.desired && is_past s.retry_at now && not s.closed

-- one more attempt
abbrev pub retried : Runtime → Runtime
retried s = record s { attempts = s.attempts + 1 }

-- `_reconcile_locked`
unfoldable pub reconcile : ShareRuntimeConfig → List Moment → Runtime → Runtime
unfolding observe is_due
reconcile config [] s = s
reconcile config (m ∷ ms) s =
    let seen = observe config m s in
    let launched = launch m.host m.plan in
    let next = spawned config m.now launched (retried seen) in
    let again = reconcile config ms next in
    if is_due m.now seen then (if is_started launched then again else next) else seen

-- What `start` answers, or that the runtime is closed.
pub data Started : Type 0 where
  is_closed : Started
  was_running : Started
  attempted : Started

-- `start`, once it has reconciled: it launches with its attempts cleared
unfoldable pub start_fresh : ShareRuntimeConfig → Moment → List Moment → Runtime → Started × Runtime
unfolding reconcile
start_fresh config m ms s =
    let wanted : Runtime = record s {
      desired = true;
      operator_stopped = false;
      attempts = 0;
      retry_at = none;
    } in
    let launched = launch m.host m.plan in
    let next = spawned config m.now launched wanted in
    (attempted, if is_started launched then reconcile config ms next else next)

-- `start`
unfoldable pub start :
    ShareRuntimeConfig → List Moment → Moment → List Moment → Runtime → Started × Runtime
unfolding start_fresh
start config before m ms s =
    if s.closed
    then (is_closed, s)
    else (let s' = reconcile config before s in
        if is_some s'.process then (was_running, s') else start_fresh config m ms s')

-- `start_automatic`, for a plan that is supported or not
unfoldable pub start_automatic :
    ShareRuntimeConfig → Option Bool → Bool → List Moment → Moment → List Moment → Runtime → Runtime
unfolding start
start_automatic config autostart supported before m ms s =
    let enabled : Bool = elim autostart [ none ↦ config.tunnel_autostart | some chosen ↦ chosen ] in
    let done = (start config before m ms s).1 in
    if s.closed || s.operator_stopped || not enabled || not supported then s else done

-- `stop`; a process is gone once it is terminated or killed
unfoldable pub stop : Runtime → Runtime
stop s = record s {
  operator_stopped = true;
  desired = false;
  retry_at = none;
  process = none;
  state = stopped;
  error = none;
  last_returncode = none;
}

-- `close`
unfoldable pub close : Runtime → Runtime
close s = if s.closed then s else record s {
  closed = true;
  desired = false;
  retry_at = none;
  process = none;
  state = stopped;
}

-- `begin_shutdown`
unfoldable pub begin_shutdown : Runtime → Runtime
begin_shutdown s = record s {
  operator_stopped = true;
  desired = false;
  retry_at = none;
  state = if is_some s.process then draining else stopped;
}

-- one round of `_monitor`
unfoldable pub tick : ShareRuntimeConfig → List Moment → Runtime → Runtime
tick config ms s = if s.closed then s else reconcile config ms s
