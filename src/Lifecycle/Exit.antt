-- ===== src/Lifecycle/Exit.antt =====
-- src/supervisor/lifecycle.rs, in `run_once`: what the task that watches a process does once the
-- process has exited. While it drains the output, waits for the status and looks at the daemon, other
-- tasks change the state: what they do is a parameter.
pub mod Outcome
use pitchfork.Prelude.{
  ℕ, leb, ◌==◌, Bool, true, false, not, ◌&&◌, ◌||◌, Option, none, some, List, [], ◌∷◌,
  if◌then◌else◌, ℤ, pos, negsuc,
}
use pitchfork.DaemonId.{DaemonId}
use pitchfork.Config.{Retry}
use pitchfork.Daemon.{Daemon, DaemonStatus, stopped, errored, unwrap_or}
use pitchfork.Daemon.Options.{UpsertDaemonOpts, Procs, builder}
use pitchfork.Map.{get, id_key, is_some}
use pitchfork.State.{StateFile, clear_active_port}
use pitchfork.State.Access.{upsert_daemon, get_daemon}

-- What `child.wait()` returns: the code of the process, that a signal killed it, or an error.
pub data ExitStatus : Type 0 where
  exited : (code : ℤ) → ExitStatus
  signalled wait_failed : ExitStatus

pub data HookType : Type 0 where
  on_ready on_fail on_retry on_stop on_exit : HookType

-- The texts "stop", "exit" and "fail".
pub data ExitReason : Type 0 where
  stop exit fail : ExitReason

abbrev pub success : ExitStatus → Bool
success (exited (pos n)) = n == 0
success (exited (negsuc n)) = false
success signalled = false
success wait_failed = false

-- `status.code().unwrap_or(-1)`
abbrev pub code_of : ExitStatus → ℤ
code_of (exited code) = code
code_of signalled = negsuc 0
code_of wait_failed = negsuc 0

abbrev pub is_stopped : DaemonStatus → Bool
is_stopped (DaemonStatus.failed message) = false
is_stopped DaemonStatus.waiting = false
is_stopped DaemonStatus.running = false
is_stopped DaemonStatus.stopping = false
is_stopped (DaemonStatus.errored code) = false
is_stopped DaemonStatus.stopped = true

abbrev pub is_stopping : DaemonStatus → Bool
is_stopping (DaemonStatus.failed message) = false
is_stopping DaemonStatus.waiting = false
is_stopping DaemonStatus.running = false
is_stopping DaemonStatus.stopping = true
is_stopping (DaemonStatus.errored code) = false
is_stopping DaemonStatus.stopped = false

abbrev pub has_pid : ℕ → Option ℕ → Bool
has_pid pid none = false
has_pid pid (some p) = p == pid

-- The daemon is stopped or being stopped.
abbrev pub ends : Option Daemon → Bool
ends none = false
ends (some d) = is_stopped d.status || is_stopping d.status

abbrev pub already_stopped : Option Daemon → Bool
already_stopped none = false
already_stopped (some d) = is_stopped d.status

-- The daemon is gone, or has another process and is not being stopped.
abbrev pub taken_over : ℕ → Option Daemon → Bool
taken_over pid none = true
taken_over pid (some d) =
    not (has_pid pid d.pid) && not (is_stopped d.status) && not (is_stopping d.status)

-- The state, and the hooks that are fired, in their order.
pub record Ended : Type 0 where
  pub state : StateFile
  pub hooks : List HookType

-- What other tasks do to the state at each point where this one waits.
pub record Meanwhile : Type 0 where
  pub drain : StateFile → StateFile
  pub wait : StateFile → StateFile
  pub look : StateFile → StateFile

unfoldable pub exit_reason : ExitStatus → Bool → ExitReason
exit_reason status stopping = if stopping then stop else (if success status then exit else fail)

unfoldable pub hooks_to_fire : ExitReason → (retry_count : ℕ) → Retry → List HookType
hooks_to_fire stop retry_count retry = on_stop ∷ on_exit ∷ []
hooks_to_fire exit retry_count retry = on_exit ∷ []
hooks_to_fire fail retry_count retry =
    if leb retry.count retry_count then on_fail ∷ on_exit ∷ [] else []

-- `exit_status.map(success).unwrap_or(true)`
abbrev pub last_success : ExitStatus → Bool
last_success (exited code) = success (exited code)
last_success signalled = false
last_success wait_failed = true

unfoldable pub exited_opts : DaemonId → ExitReason → ExitStatus → UpsertDaemonOpts
unfolding builder
exited_opts id stop status = record (builder id) {
  pid = none;
  status = stopped;
  last_exit_success = some (last_success status);
}
exited_opts id exit status = record (builder id) {
  pid = none;
  status = stopped;
  last_exit_success = some (last_success status);
}
exited_opts id fail status = record (builder id) {
  pid = none;
  status = errored (code_of status);
  last_exit_success = some false;
}

module _ (procs : Procs) (id : DaemonId) (pid retry_count : ℕ) (retry : Retry) (status : ExitStatus)
    (others : Meanwhile) where
  -- From the look at the daemon on, `t` being the state then.
  unfoldable pub finish : (pre_drain_is_stopping : Bool) → StateFile → Ended
  unfolding exit_reason hooks_to_fire exited_opts
  finish pre_drain_is_stopping t =
      let current = get_daemon id t in
      let reason = exit_reason status (pre_drain_is_stopping || ends current) in
      let hooks = hooks_to_fire reason retry_count retry in
      if not pre_drain_is_stopping && taken_over pid current
      then record { state = t; hooks = [] }
      else (if not (already_stopped current) && not pre_drain_is_stopping
          then record {
            state = (upsert_daemon procs (exited_opts id reason status) (others.look t)).0;
            hooks = hooks;
          }
          else record { state = others.look t; hooks = hooks })

  unfoldable pub exit_path : StateFile → Ended
  unfolding finish
  exit_path s =
      finish (ends (get_daemon id s)) (others.wait (clear_active_port id (others.drain s)).0)
