-- ===== src/Tunnel/Budget.antt =====
-- The restart budget of snulbug/share_runtime.py.
use snulbug.Base.{
  ℕ, ◌<◌, ◌≤◌, ◌≡◌, true, Option, none, some, List, [], ◌∷◌, arith, is_some, ◌⊎◌, sym, Bool-cases,
  Option-cases, inl, inr,
}
use mathlib.Core.Path.{subst}
use snulbug.Base.Int.{ℤ}
use snulbug.Tunnel.{
  ShareRuntimeConfig, Runtime, TunnelError, record_exit, supervision_fails, exited,
}
use snulbug.Tunnel.Launch.{
  launch, Launched, spawned, is_started, unplanned, refused, unstarted, started,
}
use snulbug.Tunnel.Supervise.{Moment, observe, reset, is_due, retried, reconcile}

-- No more restarts than configured have been attempted, and one is scheduled only if fewer have.
abbrev pub InBudget : ShareRuntimeConfig → Runtime → Type 0
InBudget config s =
    (s.attempts ≤ config.restart_max_attempts)
    × (is_some s.retry_at ≡ true → s.attempts < config.restart_max_attempts)

exit-InBudget :
    (config : ShareRuntimeConfig) (now : ℕ) (code : Option ℤ) (e : TunnelError) (s : Runtime)
    → s.attempts ≤ config.restart_max_attempts
    → InBudget config (record_exit config now code e s)
unfolding record_exit
exit-InBudget config now code e s h = (ground arith, λ r. ground arith)

spawned-InBudget :
    (config : ShareRuntimeConfig) (now : ℕ) (l : Launched) (s : Runtime)
    → s.attempts ≤ config.restart_max_attempts
    → InBudget config (spawned config now l s)
unfolding spawned supervision_fails
spawned-InBudget config now unplanned s h = (h, λ r. ground arith)
spawned-InBudget config now (refused e) s h = (h, λ r. ground arith)
spawned-InBudget config now unstarted s h = exit-InBudget config now none _ s h
spawned-InBudget config now (started pid) s h = (h, λ r. ground arith)

reset_attempts :
    (config : ShareRuntimeConfig) (now : ℕ) (s : Runtime)
    → (reset config now s).attempts ≤ s.attempts
unfolding reset
reset_attempts config now s = ground arith

reset-InBudget :
    (config : ShareRuntimeConfig) (now : ℕ) (s : Runtime)
    → InBudget config s
    → InBudget config (reset config now s)
unfolding reset
reset-InBudget config now s h = (ground arith, λ r. ground arith)

observe-cases :
    (config : ShareRuntimeConfig) (m : Moment) (s : Runtime)
    → (observe config m s ≡ s)
      ⊎ ((observe config m s ≡ reset config m.now s)
          ⊎ ((code : ℤ) × (observe config m s
                ≡ record_exit config m.now
                    (some code)
                    (exited code)
                    (record (reset config m.now s) { process = none }))))
unfolding observe
observe-cases config m s = elim (Option-cases s.process) [
  | inl e ↦ inl (ground (arith, e))
  | inr (pid, e) ↦ elim (Option-cases m.poll) [
    | inl alive ↦ inr (inl (ground (arith, e, alive)))
    | inr (code, ended) ↦ inr (inr (code, ground (arith, e, ended)))
  ]
]

observe-InBudget :
    (config : ShareRuntimeConfig) (m : Moment) (s : Runtime)
    → InBudget config s
    → InBudget config (observe config m s)
observe-InBudget config m s h = elim (observe-cases config m s) [
  | inl e ↦ subst (InBudget config) (sym e) h
  | inr (inl e) ↦ subst (InBudget config) (sym e) (reset-InBudget config m.now s h)
  | inr (inr (code, e)) ↦
      subst (InBudget config) (sym e)
        (exit-InBudget config m.now (some code) (exited code) _ (reset-InBudget config m.now s h).0)
]

due_scheduled : (now : ℕ) (s : Runtime) → is_due now s ≡ true → is_some s.retry_at ≡ true
unfolding is_due
due_scheduled now s h = ground arith

-- a restart that is due stays within the budget
pub retried-InBudget :
    (config : ShareRuntimeConfig) (m : Moment) (s : Runtime)
    → InBudget config s
    → is_due m.now (observe config m s) ≡ true
    → InBudget config (spawned config m.now (launch m.host m.plan) (retried (observe config m s)))
retried-InBudget config m s h due =
    let kept = observe-InBudget config m s h in
    let fewer : (observe config m s).attempts < config.restart_max_attempts =
      kept.1 (due_scheduled m.now (observe config m s) due) in
    spawned-InBudget config m.now (launch m.host m.plan) (retried (observe config m s))
      (omega arith)

-- A reconciliation keeps a runtime within its restart budget, whatever it meets.
pub reconcile-InBudget :
    (config : ShareRuntimeConfig) (ms : List Moment) (s : Runtime)
    → InBudget config s
    → InBudget config (reconcile config ms s)
unfolding reconcile
reconcile-InBudget config [] s h = h
reconcile-InBudget config (m ∷ ms) s h =
    let seen = observe config m s in
    let next = spawned config m.now (launch m.host m.plan) (retried seen) in
    elim (Bool-cases (is_due m.now seen)) [
      | inl due ↦
          let within = retried-InBudget config m s h due in
          elim (Bool-cases (is_started (launch m.host m.plan))) [
            | inl up ↦ rw (due, up) (reconcile-InBudget config ms next within)
            | inr down ↦ rw (due, down) within
          ]
      | inr waits ↦ rw waits (observe-InBudget config m s h)
    ]
