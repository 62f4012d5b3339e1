-- ===== src/Tunnel.antt =====
-- The tunnel supervisor of snulbug/share_runtime.py: `ShareRuntime` and its restarts. The lock is
-- held for a whole operation, so each is one step. What an operation asks of its surroundings (the
-- clock, the exit code of the process, the plan of a launch) is an argument. Times and durations
-- are microseconds.
pub mod Launch
pub mod Supervise
pub mod Backoff
pub mod Depth
pub mod Stopped
pub mod Restarts
pub mod Budget
mod Tests
use snulbug.Base.{
  ℕ, zero, suc, ◌+◌, ◌*◌, String, Bool, true, false, ◌&&◌, Option, none, some, ltb, leb, eqb,
  if◌then◌else◌,
}
use snulbug.Base.Int.{ℤ}

pub record ShareRuntimeConfig : Type 0 where
  pub tunnel_autostart : Bool
  pub restart_initial : ℕ
  pub restart_max : ℕ
  pub restart_max_attempts : ℕ
  pub restart_reset : ℕ
  pub tunnel_shutdown_timeout : ℕ
  pub graceful_shutdown_timeout : ℕ

-- the checks of `ShareRuntimeConfig.load` on the numbers
unfoldable pub is_valid : ShareRuntimeConfig → Bool
is_valid config =
    ltb 0 config.restart_initial
    && ltb 0 config.restart_max
    && ltb 0 config.restart_reset
    && ltb 0 config.tunnel_shutdown_timeout
    && ltb 0 config.graceful_shutdown_timeout
    && leb config.restart_initial config.restart_max

-- `_state`
pub data TunnelState : Type 0 where
  stopped running backoff failed draining : TunnelState

-- `_error`, by what it says
pub data TunnelError : Type 0 where
  not_manageable : String → TunnelError
  command_missing : TunnelError
  not_found : String → TunnelError
  ngrok_placeholder ssh_placeholder : TunnelError
  not_started : TunnelError
  exited : ℤ → TunnelError
  supervision_failed : TunnelError

-- The fields of `ShareRuntime` that the supervision reads and writes; a process is its pid.
pub record Runtime : Type 0 where
  pub process : Option ℕ
  pub started_at : Option ℕ
  pub last_returncode : Option ℤ
  -- `_desired` is "running"
  pub desired : Bool
  pub state : TunnelState
  pub error : Option TunnelError
  pub attempts : ℕ
  pub retry_at : Option ℕ
  pub closed : Bool
  pub operator_stopped : Bool

-- `__init__`
unfoldable pub new : Runtime
new = record {
  process = none;
  started_at = none;
  last_returncode = none;
  desired = false;
  state = stopped;
  error = none;
  attempts = 0;
  retry_at = none;
  closed = false;
  operator_stopped = false;
}

-- `min` of two delays
abbrev pub lesser : ℕ → ℕ → ℕ
lesser a b = if leb a b then a else b

-- The loop of `_record_exit_locked`, from a delay and for a number of rounds.
unfoldable pub delay_after : ℕ → ℕ → ℕ → ℕ
delay_after most delay zero = delay
delay_after most delay (suc n) =
    let next = lesser (delay * 2) most in
    let rest = delay_after most next n in if eqb next most then next else rest

-- `_supervision_failed_locked`
unfoldable pub supervision_fails : Runtime → Runtime
supervision_fails s = record s { state = failed; retry_at = none; error = some supervision_failed }

-- `_record_exit_locked`
unfoldable pub record_exit : ShareRuntimeConfig → ℕ → Option ℤ → TunnelError → Runtime → Runtime
unfolding delay_after
record_exit config now code error s =
    let noted : Runtime = record s { last_returncode = code; error = some error } in
    if s.desired
    then if ltb s.attempts config.restart_max_attempts
      then record noted {
        retry_at = some (now + delay_after config.restart_max config.restart_initial s.attempts);
        state = backoff;
      }
      else record noted { retry_at = none; state = failed }
    else record noted { state = stopped; retry_at = none }
