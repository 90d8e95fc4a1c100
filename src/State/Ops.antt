-- ===== src/State/Ops.antt =====
-- The changes of the state, as data: a run of the supervisor is a sequence of them. Each is one
-- function of src/state_file.rs, or `upsert_daemon` of src/supervisor/state.rs.
use pitchfork.Prelude.{ℕ, Bool, List, [], ◌∷◌}
use pitchfork.DaemonId.{DaemonId}
use pitchfork.Config.{FilePath}
use pitchfork.Daemon.{Daemon}
use pitchfork.Daemon.Options.{UpsertDaemonOpts, Procs}
use pitchfork.State.{
  StateFile, ProjectSession, remove_daemon, enable_daemon, disable_daemon, set_active_port,
  clear_active_port, set_last_cron_triggered, set_shell_dir, remove_shell_dir, set_project_session,
  remove_project_session, retain_daemons,
}
use pitchfork.State.Access.{upsert_daemon}

pub data Op : Type 0 where
  upsert : (procs : Procs) (opts : UpsertDaemonOpts) → Op
  drop enabling disabling : (id : DaemonId) → Op
  port : (id : DaemonId) (number : ℕ) → Op
  no_port : (id : DaemonId) → Op
  cron : (id : DaemonId) (time : ℕ) → Op
  shell : (pid : ℕ) (dir : FilePath) → Op
  no_shell : (pid : ℕ) → Op
  session : (pid : ℕ) (dir : FilePath) (session : ProjectSession) → Op
  no_session : (pid : ℕ) (dir : FilePath) → Op
  retaining : (f : DaemonId → Daemon → Bool) → Op

unfoldable pub apply : Op → StateFile → StateFile
apply (upsert procs opts) s = (upsert_daemon procs opts s).0
apply (drop id) s = remove_daemon id s
apply (enabling id) s = (enable_daemon id s).0
apply (disabling id) s = (disable_daemon id s).0
apply (port id number) s = (set_active_port id number s).0
apply (no_port id) s = (clear_active_port id s).0
apply (cron id time) s = (set_last_cron_triggered id time s).0
apply (shell pid dir) s = set_shell_dir pid dir s
apply (no_shell pid) s = (remove_shell_dir pid s).0
apply (session pid dir value) s = (set_project_session pid dir value s).0
apply (no_session pid dir) s = (remove_project_session pid dir s).0
apply (retaining f) s = retain_daemons f s

unfoldable pub run : List Op → StateFile → StateFile
run [] s = s
run (op ∷ ops) s = run ops (apply op s)
