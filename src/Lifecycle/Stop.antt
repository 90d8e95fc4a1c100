-- ===== src/Lifecycle/Stop.antt =====
-- `stop` of src/supervisor/lifecycle.rs. Killing a process group is the operating system's: it is a
-- parameter, as is what other tasks do to the state while it is waited for.
pub mod Outcome
use pitchfork.Prelude.{ℕ, Bool, true, false, Option, none, some, if◌then◌else◌}
use pitchfork.DaemonId.{DaemonId, id_eq, pitchfork_id}
use pitchfork.Config.{StopConfig}
use pitchfork.Daemon.{Daemon, DaemonStatus, stopping, stopped, running, unwrap_or}
use pitchfork.Daemon.Options.{UpsertDaemonOpts, Procs, builder}
use pitchfork.Map.{get, id_key}
use pitchfork.State.{StateFile}
use pitchfork.State.Access.{upsert_daemon, get_daemon}
use pitchfork.Ipc.{
  IpcResponse, done, error, cannot_stop_supervisor, daemon_was_not_running, daemon_stop_failed,
  daemon_not_running, daemon_not_found,
}

-- What is there after the attempt to kill a process group: the state, whether the attempt failed,
-- and the processes.
pub record Killed : Type 0 where
  pub state : StateFile
  pub failed : Bool
  pub procs : Procs

-- SIGTERM, and no timeout of its own.
abbrev pub default_stop : StopConfig
default_stop = record { signal = record { number = 15 }; timeout = none }

unfoldable pub stopping_opts : DaemonId → ℕ → UpsertDaemonOpts
unfolding builder
stopping_opts id pid = record (builder id) { pid = some pid; status = stopping }

unfoldable pub still_running_opts : DaemonId → ℕ → UpsertDaemonOpts
unfolding builder
still_running_opts id pid = record (builder id) { pid = some pid; status = running }

unfoldable pub stopped_opts : DaemonId → UpsertDaemonOpts
unfolding builder
stopped_opts id = record (builder id) {
  pid = none;
  status = stopped;
  last_exit_success = some true;
}

unfoldable pub dead_opts : DaemonId → UpsertDaemonOpts
unfolding builder
dead_opts id = record (builder id) { pid = none; status = stopped }

module _ (procs : Procs) (kill : ℕ → StopConfig → StateFile → Killed) where
  -- What follows the attempt to kill the process.
  unfoldable pub after_kill : DaemonId → ℕ → Killed → StateFile × IpcResponse
  unfolding still_running_opts stopped_opts
  after_kill id pid k =
      let failed : StateFile × IpcResponse =
        ((upsert_daemon k.procs (still_running_opts id pid) k.state).0, daemon_stop_failed pid) in
      let gone : StateFile × IpcResponse =
        ((upsert_daemon k.procs (stopped_opts id) k.state).0, done) in
      if k.failed then (if k.procs.is_running pid then failed else gone) else gone

  -- A daemon with a process.
  unfoldable pub stop_process : DaemonId → Daemon → ℕ → StateFile → StateFile × IpcResponse
  unfolding after_kill stopping_opts dead_opts
  stop_process id d pid s =
      if procs.is_running pid
      then after_kill id pid (
          kill pid (unwrap_or d.stop_signal default_stop)
            (upsert_daemon procs (stopping_opts id pid) s).0)
      else ((upsert_daemon procs (dead_opts id) s).0, daemon_was_not_running)

  unfoldable pub stop : DaemonId → StateFile → StateFile × IpcResponse
  unfolding stop_process
  stop id s =
      if id_eq id pitchfork_id then (s, error cannot_stop_supervisor) else elim (get_daemon id s) [
        | none ↦ (s, daemon_not_found)
        | some d ↦ elim d.pid [
          | none ↦ (s, daemon_not_running)
          | some pid ↦ stop_process id d pid s
        ]
      ]
