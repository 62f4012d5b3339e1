-- ===== src/Tunnel/Restarts.antt =====
-- How often the monitor of snulbug/share_runtime.py restarts the process.
use snulbug.Base.{
  ℕ, ◌+◌, ◌*◌, ◌-◌, ◌≤◌, ◌≡◌, ◌&&◌, refl, ap, inl, inr, Bool, true, false, Option, none, some, List,
  [], ◌∷◌, arith, leb, is_some, Bool-cases, Option-cases, if◌then◌else◌,
}
use snulbug.Base.Int.{ℤ}
use snulbug.Tunnel.{
  ShareRuntimeConfig, Runtime, TunnelError, record_exit, supervision_fails, exited,
}
use snulbug.Tunnel.Launch.{
  launch, Launched, spawned, is_started, unplanned, refused, unstarted, started,
}
use snulbug.Tunnel.Supervise.{Moment, observe, reset, is_due, retried, reconcile, tick}
use snulbug.Tunnel.Stopped.{tick-closed}
use snulbug.Tunnel.Budget.{InBudget, retried-InBudget, reconcile-InBudget}

-- Whether a process is there that started at least `restart_reset` ago.
abbrev pub has_run_long : ShareRuntimeConfig → ℕ → Runtime → Bool
has_run_long config now s =
    is_some s.process
    && elim s.started_at [ none ↦ false | some t ↦ leb config.restart_reset (now - t) ]

-- How often the process is launched again in one reconciliation.
unfoldable pub restarts : ShareRuntimeConfig → List Moment → Runtime → ℕ
restarts config [] s = 0
restarts config (m ∷ ms) s =
    let seen = observe config m s in
    let launched = launch m.host m.plan in
    let later = restarts config ms (spawned config m.now launched (retried seen)) in
    if is_due m.now seen then (if is_started launched then 1 + later else 1) else 0

-- How often one reconciliation finds a process that has run for long.
unfoldable pub long_runs : ShareRuntimeConfig → List Moment → Runtime → ℕ
long_runs config [] s = 0
long_runs config (m ∷ ms) s =
    let seen = observe config m s in
    let launched = launch m.host m.plan in
    let here : ℕ = if has_run_long config m.now s then 1 else 0 in
    let later = long_runs config ms (spawned config m.now launched (retried seen)) in
    if is_due m.now seen && is_started launched then here + later else here

-- The sum of a count over the rounds of the monitor, which does nothing once it is closed.
unfoldable pub in_rounds :
    (List Moment → Runtime → ℕ) → ShareRuntimeConfig → List (List Moment) → Runtime → ℕ
in_rounds count config [] s = 0
in_rounds count config (ms ∷ rounds) s =
    (if s.closed then 0 else count ms s) + in_rounds count config rounds (tick config ms s)

spawned-attempts :
    (config : ShareRuntimeConfig) (now : ℕ) (l : Launched) (s : Runtime)
    → (spawned config now l s).attempts ≡ s.attempts
unfolding spawned supervision_fails record_exit
spawned-attempts config now unplanned s = refl
spawned-attempts config now (refused e) s = refl
spawned-attempts config now unstarted s = ground arith
spawned-attempts config now (started pid) s = refl

exit-attempts :
    (config : ShareRuntimeConfig) (now : ℕ) (code : Option ℤ) (e : TunnelError) (s : Runtime)
    → (record_exit config now code e s).attempts ≡ s.attempts
unfolding record_exit
exit-attempts config now code e s = ground arith

reset-attempts :
    (config : ShareRuntimeConfig) (now : ℕ) (s : Runtime)
    → is_some s.process ≡ true
    → has_run_long config now s ≡ false
    → (reset config now s).attempts ≡ s.attempts
unfolding reset
reset-attempts config now s up short = elim (Option-cases s.started_at) [
  | inl f ↦ ground (arith, f)
  | inr (t, f) ↦ ground (arith, up, f, short)
]

-- an observation forgets attempts only for a process that has run for long
observe-attempts :
    (config : ShareRuntimeConfig) (m : Moment) (s : Runtime)
    → has_run_long config m.now s ≡ false
    → (observe config m s).attempts ≡ s.attempts
unfolding observe
observe-attempts config m s short = elim (Option-cases s.process) [
  | inl e ↦ ground (arith, e)
  | inr (pid, e) ↦
      let kept = reset-attempts config m.now s (ap is_some e) short in
      elim (Option-cases m.poll) [
        | inl alive ↦ ground (arith, e, alive, kept)
        | inr (code, ended) ↦
            let noted =
              exit-attempts config m.now (some code) (exited code)
                (record (reset config m.now s) { process = none }) in
            ground (arith, e, ended, kept, noted)
      ]
]

-- the attempts that an observation forgets are at most those of the budget
observe-pays :
    (config : ShareRuntimeConfig) (m : Moment) (s : Runtime) (here : ℕ)
    → s.attempts ≤ config.restart_max_attempts
    → (if has_run_long config m.now s then 1 else 0) ≡ here
    → s.attempts ≤ (observe config m s).attempts + config.restart_max_attempts * here
observe-pays config m s here low h = elim (Bool-cases (has_run_long config m.now s)) [
  | inl long ↦ let one : here ≡ 1 = ground (arith, long) in rw (one) (omega arith)
  | inr short ↦
      let none_ : here ≡ 0 = ground (arith, short) in
      let kept = observe-attempts config m s short in rw (none_) (omega arith)
]

-- One reconciliation adds each restart to the attempts, unless a long run has cleared them.
reconcile-counts :
    (config : ShareRuntimeConfig) (ms : List Moment) (s : Runtime)
    → InBudget config s
    → s.attempts + restarts config ms s
      ≤ (reconcile config ms s).attempts + config.restart_max_attempts * long_runs config ms s
unfolding restarts long_runs reconcile
reconcile-counts config [] s h = omega arith
reconcile-counts config (m ∷ ms) s h =
    let seen = observe config m s in
    let launched = launch m.host m.plan in
    let next = spawned config m.now launched (retried seen) in
    let here : ℕ = if has_run_long config m.now s then 1 else 0 in
    let pays = observe-pays config m s here h.0 refl in
    let kept = spawned-attempts config m.now launched (retried seen) in
    elim (Bool-cases (is_due m.now seen)) [
      | inl due ↦
          let within = retried-InBudget config m s h due in
          elim (Bool-cases (is_started launched)) [
            | inl up ↦
                let rest = reconcile-counts config ms next within in
                rw (due, up) (omega (arith, pays, kept, rest))
            | inr down ↦ rw (due, down) (omega (arith, pays, kept))
          ]
      | inr waits ↦ rw waits (omega (arith, pays))
    ]

in_rounds-nil :
    (count : List Moment → Runtime → ℕ) (config : ShareRuntimeConfig) (s : Runtime)
    → in_rounds count config [] s ≡ 0
unfolding in_rounds
in_rounds-nil count config s = refl

-- a round of the monitor once it is closed, and before
in_rounds-closed :
    (count : List Moment → Runtime → ℕ) (config : ShareRuntimeConfig) (ms : List Moment)
    (rounds : List (List Moment)) (s : Runtime)
    → s.closed ≡ true
    → in_rounds count config (ms ∷ rounds) s ≡ in_rounds count config rounds s
unfolding in_rounds
in_rounds-closed count config ms rounds s shut =
    let nothing : (if s.closed then 0 else count ms s) ≡ 0 = ground (arith, shut) in
    let same = ap (in_rounds count config rounds) (tick-closed config ms s shut) in
    omega (arith, nothing, same)

tick_open :
    (config : ShareRuntimeConfig) (ms : List Moment) (s : Runtime)
    → s.closed ≡ false
    → tick config ms s ≡ reconcile config ms s
unfolding tick
tick_open config ms s runs = ground (arith, runs)

in_rounds-open :
    (count : List Moment → Runtime → ℕ) (config : ShareRuntimeConfig) (ms : List Moment)
    (rounds : List (List Moment)) (s : Runtime)
    → s.closed ≡ false
    → in_rounds count config (ms ∷ rounds) s
      ≡ count ms s + in_rounds count config rounds (reconcile config ms s)
unfolding in_rounds
in_rounds-open count config ms rounds s runs =
    let counted : (if s.closed then 0 else count ms s) ≡ count ms s = ground (arith, runs) in
    let same = ap (in_rounds count config rounds) (tick_open config ms s runs) in
    omega (arith, counted, same)

-- The monitor stays within the restart budget: from a runtime within it, over any rounds, the
-- process is launched again at most `restart_max_attempts` times, less the attempts that the runtime
-- had before, and at most as often again for each time that a process is found which has run for
-- `restart_reset`.
pub ticks-IsBounded :
    (config : ShareRuntimeConfig) (rounds : List (List Moment)) (s : Runtime)
    → InBudget config s
    → s.attempts + in_rounds (restarts config) config rounds s
      ≤ config.restart_max_attempts * (1 + in_rounds (long_runs config) config rounds s)
ticks-IsBounded config [] s h =
    let restarted = in_rounds-nil (restarts config) config s in
    let ran = in_rounds-nil (long_runs config) config s in omega (arith, restarted, ran, h.0)
ticks-IsBounded config (ms ∷ rounds) s h = elim (Bool-cases s.closed) [
  | inl shut ↦
      let restarted = in_rounds-closed (restarts config) config ms rounds s shut in
      let ran = in_rounds-closed (long_runs config) config ms rounds s shut in
      rw (restarted, ran) (ticks-IsBounded config rounds s h)
  | inr runs ↦
      let restarted = in_rounds-open (restarts config) config ms rounds s runs in
      let ran = in_rounds-open (long_runs config) config ms rounds s runs in
      let counts = reconcile-counts config ms s h in
      let rest =
        ticks-IsBounded config rounds (reconcile config ms s) (reconcile-InBudget config ms s h) in
      rw (restarted, ran) (grind (arith, counts, rest))
]
