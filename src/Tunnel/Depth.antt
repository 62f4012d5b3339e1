-- ===== src/Tunnel/Depth.antt =====
-- How deep a reconciliation of snulbug/share_runtime.py goes.
use snulbug.Base.{
  ℕ, zero, suc, ◌*◌, ◌<◌, ◌≡◌, refl, true, false, Option, some, List, ◌∷◌, arith, is_some,
  Option-cases, inl, inr,
}
use snulbug.Base.Int.{ℤ}
use snulbug.Tunnel.{
  ShareRuntimeConfig, Runtime, TunnelError, is_valid, delay_after, lesser, record_exit, exited,
}
use snulbug.Tunnel.Launch.{
  launch, Launched, spawned, is_started, unplanned, refused, unstarted, started,
}
use snulbug.Tunnel.Supervise.{Moment, observe, reset, is_due, retried, reconcile}

positive_delay : (most delay n : ℕ) → 0 < most → 0 < delay → 0 < delay_after most delay n
unfolding delay_after
positive_delay most delay zero m d = d
positive_delay most delay (suc n) m d =
    ground (arith, positive_delay most (lesser (delay * 2) most) n)

exit_not_due :
    (config : ShareRuntimeConfig) (now : ℕ) (code : Option ℤ) (e : TunnelError) (s : Runtime)
    → 0 < delay_after config.restart_max config.restart_initial s.attempts
    → is_due now (record_exit config now code e s) ≡ false
unfolding is_due record_exit
exit_not_due config now code e s h = ground arith

delay_positive :
    (config : ShareRuntimeConfig) (n : ℕ)
    → is_valid config ≡ true
    → 0 < delay_after config.restart_max config.restart_initial n
unfolding is_valid
delay_positive config n valid =
    positive_delay config.restart_max config.restart_initial n (ground arith) (ground arith)

running_not_due :
    (config : ShareRuntimeConfig) (m : Moment) (s : Runtime)
    → is_valid config ≡ true
    → is_some s.process ≡ true
    → is_due m.now (observe config m s) ≡ false
unfolding observe
running_not_due config m s valid p = elim (Option-cases s.process) [
  | inl e ↦ absurd (ground arith)
  | inr (pid, e) ↦ elim (Option-cases m.poll) [
    | inl alive ↦ rw (e, alive) (unfold is_due reset in ground arith)
    | inr (code, ended) ↦
        rw (e, ended)
          (exit_not_due config m.now (some code) (exited code) _ (delay_positive config _ valid))
  ]
]

started-process :
    (config : ShareRuntimeConfig) (now : ℕ) (l : Launched) (s : Runtime)
    → is_started l ≡ true
    → is_some (spawned config now l s).process ≡ true
unfolding spawned
started-process config now unplanned s h = ground arith
started-process config now (refused e) s h = ground arith
started-process config now unstarted s h = ground arith
started-process config now (started pid) s h = refl

pub not_due-reconcile :
    (config : ShareRuntimeConfig) (m : Moment) (ms : List Moment) (s : Runtime)
    → is_due m.now (observe config m s) ≡ false
    → reconcile config (m ∷ ms) s ≡ observe config m s
unfolding reconcile
not_due-reconcile config m ms s h = simp h

-- Under a valid configuration a reconciliation that restarts the process does not restart it
-- again: the reconciliation within it, after the sleep, only observes the new process.
reconcile-observe :
    (config : ShareRuntimeConfig) (m m' : Moment) (ms : List Moment) (s : Runtime)
    → is_valid config ≡ true
    → is_due m.now (observe config m s) ≡ true
    → is_started (launch m.host m.plan) ≡ true
    → reconcile config (m ∷ m' ∷ ms) s
      ≡ observe config m'
          (spawned config m.now (launch m.host m.plan) (retried (observe config m s)))
unfolding reconcile
reconcile-observe config m m' ms s valid due up =
    let next : Runtime =
      spawned config m.now (launch m.host m.plan) (retried (observe config m s)) in
    let runs : is_some next.process ≡ true =
      started-process config m.now (launch m.host m.plan) (retried (observe config m s)) up in
    rw (due, up) (not_due-reconcile config m' ms next (running_not_due config m' next valid runs))
