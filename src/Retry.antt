-- ===== src/Retry.antt =====
-- src/supervisor/retry.rs: starting again the daemons that failed. `run`, a method of
-- src/supervisor/lifecycle.rs, is any function that changes the state; its error is only logged.
pub mod Attempts
pub mod Runs
mod Examples
use pitchfork.Prelude.{
  ℕ, ◌+◌, ◌≡◌, ltb, Bool, true, false, not, ◌&&◌, Option, none, some, List, [], ◌∷◌, if◌then◌else◌,
  ℤ,
}
use pitchfork.Text.{Text}
use pitchfork.DaemonId.{DaemonId}
use pitchfork.Config.{FilePath, Env}
use pitchfork.Daemon.{Daemon, DaemonStatus, RunOptions, Configs, to_run_options, unwrap_or}
use pitchfork.Daemon.Options.{UpsertDaemonOpts, Procs, builder}
use pitchfork.Map.{Map, get, is_some, id_key}
use pitchfork.State.{StateFile}
use pitchfork.State.Access.{upsert_daemon}

abbrev pub is_errored : DaemonStatus → Bool
is_errored (DaemonStatus.failed message) = false
is_errored DaemonStatus.waiting = false
is_errored DaemonStatus.running = false
is_errored DaemonStatus.stopping = false
is_errored (DaemonStatus.errored code) = true
is_errored DaemonStatus.stopped = false

-- Errored, not running, and with retries remaining.
unfoldable pub needs_retry : Daemon → Bool
needs_retry d =
    is_errored d.status
    && not (is_some d.pid)
    && ltb 0 d.retry.count
    && ltb d.retry_count d.retry.count

unfoldable pub ids_to_retry : Map DaemonId Daemon → List DaemonId
ids_to_retry [] = []
ids_to_retry ((id, d) ∷ m) = let rest = ids_to_retry m in if needs_retry d then id ∷ rest else rest

-- The arguments of `fire_hook` for `OnRetry`.
pub record RetryHook : Type 0 where
  pub id : DaemonId
  pub dir : FilePath
  pub count : ℕ
  pub env : Option Env

-- The state, and the hooks that were fired and the runs that were started, the last one first.
pub record Retrying : Type 0 where
  pub state : StateFile
  pub hooks : List RetryHook
  pub runs : List RunOptions

-- What marks a daemon without a command as exhausted.
unfoldable pub exhausted_opts : DaemonId → Daemon → UpsertDaemonOpts
exhausted_opts id d = record (builder id) { status = d.status; retry_count = some d.retry.count }

-- The next attempt, with what the daemon ran with.
unfoldable pub retry_opts : Configs → (cwd : FilePath) → Daemon → List Text → RunOptions
retry_opts configs cwd d cmd = record (to_run_options configs cwd d cmd) {
  retry_count = d.retry_count + 1;
}

module _ (procs : Procs) (configs : Configs) (cwd : FilePath)
    (run : RunOptions → StateFile → StateFile) where
  unfoldable pub retry_daemon : DaemonId → Daemon → Retrying → Retrying
  retry_daemon id d r = elim d.cmd [
    | none ↦ record r { state = (upsert_daemon procs (exhausted_opts id d) r.state).0 }
    | some cmd ↦ record {
      state = run (retry_opts configs cwd d cmd) r.state;
      hooks =
          record { id = id; dir = unwrap_or d.dir cwd; count = d.retry_count + 1; env = d.env }
          ∷ r.hooks;
      runs = retry_opts configs cwd d cmd ∷ r.runs;
    }
  ]

  unfoldable pub retry_one : DaemonId → Retrying → Retrying
  retry_one id r = elim (get id r.state.daemons) [
    | none ↦ r
    | some d ↦ (if needs_retry d then retry_daemon id d r else r)
  ]

  unfoldable pub retry_all : List DaemonId → Retrying → Retrying
  retry_all [] r = r
  retry_all (id ∷ ids) r = retry_all ids (retry_one id r)

  unfoldable pub check_retry : Retrying → Retrying
  check_retry r = retry_all (ids_to_retry r.state.daemons) r
