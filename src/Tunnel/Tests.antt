-- ===== src/Tunnel/Tests.antt =====
-- Runs of the tunnel supervisor of snulbug/share_runtime.py.
use snulbug.Base.{
  arith, ℕ, ◌+◌, ◌*◌, ◌≤◌, ◌≡◌, refl, true, false, Option, none, some, List, [], ◌∷◌,
}
use snulbug.Base.Int.{ℤ, pos}
use snulbug.Tunnel.{ShareRuntimeConfig, Runtime, backoff, is_valid, record_exit}
use snulbug.Tunnel.Launch.{Plan, Host, launch, is_started, spawned}
use snulbug.Tunnel.Supervise.{Moment, is_closed, observe, reconcile, is_due, start, close, tick}
use snulbug.Tunnel.Restarts.{restarts, long_runs, in_rounds, ticks-IsBounded}
use snulbug.Tunnel.Stopped.{ticks, ticks-close}

abbrev config : ShareRuntimeConfig
config = record {
  tunnel_autostart = true;
  restart_initial = 10;
  restart_max = 300;
  restart_max_attempts = 5;
  restart_reset = 600;
  tunnel_shutdown_timeout = 50;
  graceful_shutdown_timeout = 300;
}

abbrev host : Host
host = record {
  which = λ program. true;
  ngrok_has_placeholder = false;
  ssh_has_placeholder = λ argv. false;
  popen = some 42;
}

abbrev plan : Plan
plan = record { command_argv = "ngrok" ∷ []; manageable = true; error = none; provider = "ngrok" }

abbrev moment : ℕ → Option ℤ → Moment
moment now poll = record { now = now; poll = poll; plan = some plan; host = host }

-- a runtime that waits to restart its process
abbrev waiting : Runtime
waiting = record {
  process = none;
  started_at = some 0;
  last_returncode = some (pos 1);
  desired = true;
  state = backoff;
  error = none;
  attempts = 0;
  retry_at = some 20;
  closed = false;
  operator_stopped = false;
}

valid : is_valid config ≡ true
unfolding is_valid
valid = refl

due : is_due 30 (observe config (moment 30 none) waiting) ≡ true
unfolding is_due observe
due = refl

launches : is_started (launch host (some plan)) ≡ true
unfolding launch
launches = refl

abbrev rounds : List (List Moment)
rounds = (moment 40 none ∷ []) ∷ (moment 900 (some (pos 1)) ∷ moment 901 none ∷ []) ∷ []

ticks-close_example :
    (ticks config rounds (close waiting) ≡ close waiting)
    × (start config [] (moment 50 none) [] (close waiting) ≡ (is_closed, close waiting))
    × (close (close waiting) ≡ close waiting)
ticks-close_example = ticks-close config rounds waiting [] [] (moment 50 none)

abbrev restarting : List (List Moment)
restarting = (moment 30 none ∷ moment 31 (some (pos 1)) ∷ []) ∷ (moment 60 none ∷ []) ∷ []

-- one restart in the first round, whose process ends at once, and one in the second
restarts_twice : in_rounds (restarts config) config restarting waiting ≡ 2
unfolding in_rounds restarts tick reconcile observe is_due launch spawned record_exit
restarts_twice = refl

ticks-IsBounded_example :
    waiting.attempts + in_rounds (restarts config) config restarting waiting
    ≤ config.restart_max_attempts * (1 + in_rounds (long_runs config) config restarting waiting)
ticks-IsBounded_example = ticks-IsBounded config restarting waiting (omega arith, λ r. omega arith)
