-- ===== src/Tunnel/Launch.antt =====
-- `_spawn_locked` of snulbug/share_runtime.py, up to the process that it starts. The plan that
-- tunnel_start_plan makes and what the host answers are arguments.
use snulbug.Base.{
  ℕ, String, Bool, ◌&&◌, not, Option, none, some, List, [], ◌∷◌, truthy, ◌==◌, if◌then◌else◌,
}
use snulbug.Tunnel.{
  ShareRuntimeConfig, Runtime, TunnelError, not_manageable, command_missing, not_found,
  ngrok_placeholder, ssh_placeholder, not_started, failed, running, record_exit, supervision_fails,
}

pub record Plan : Type 0 where
  pub command_argv : List String
  pub manageable : Bool
  pub error : Option String
  pub provider : String

-- What the host answers: whether an executable is found, whether the configuration of ngrok or the
-- SSH command still holds a placeholder, and the pid of the process, if it can be started.
pub record Host : Type 0 where
  pub which : String → Bool
  pub ngrok_has_placeholder : Bool
  pub ssh_has_placeholder : List String → Bool
  pub popen : Option ℕ

-- the checks of a command that is there
abbrev command_error : Host → Plan → String → Option TunnelError
command_error host plan program =
    if not (host.which program)
    then some (not_found program)
    else if plan.provider == "ngrok" && host.ngrok_has_placeholder
    then some ngrok_placeholder
    else if plan.provider == "ssh" && host.ssh_has_placeholder plan.command_argv
    then some ssh_placeholder
    else none

abbrev argv_error : Host → Plan → List String → Option TunnelError
argv_error host plan [] = some command_missing
argv_error host plan (program ∷ _) = command_error host plan program

-- why a plan cannot be launched
unfoldable pub launch_error : Host → Plan → Option TunnelError
launch_error host plan = elim (if plan.manageable then none else truthy plan.error) [
  | some text ↦ some (not_manageable text)
  | none ↦ argv_error host plan plan.command_argv
]

-- What a launch comes to. A plan that cannot be read raises.
pub data Launched : Type 0 where
  unplanned : Launched
  refused : TunnelError → Launched
  unstarted : Launched
  started : ℕ → Launched

abbrev popened : Option ℕ → Launched
popened none = unstarted
popened (some pid) = started pid

unfoldable pub launch : Host → Option Plan → Launched
unfolding launch_error
launch host none = unplanned
launch host (some plan) = elim (launch_error host plan) [
  | some error ↦ refused error
  | none ↦ popened host.popen
]

-- `_spawn_locked`, before it sleeps and reconciles
unfoldable pub spawned : ShareRuntimeConfig → ℕ → Launched → Runtime → Runtime
spawned config now unplanned s = supervision_fails s
spawned config now (refused error) s = record s {
  state = failed;
  error = some error;
  retry_at = none;
}
spawned config now unstarted s = record_exit config now none not_started s
spawned config now (started pid) s = record s {
  process = some pid;
  started_at = some now;
  last_returncode = none;
  state = running;
  error = none;
  retry_at = none;
}

-- whether the launch goes on to reconcile
abbrev pub is_started : Launched → Bool
is_started (started pid) = Bool.true
is_started _ = Bool.false
