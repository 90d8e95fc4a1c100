-- ===== src/Lifecycle/Stop/Outcome.antt =====
-- What `stop` of src/supervisor/lifecycle.rs leaves behind with each of its answers.
use pitchfork.Prelude.{
  ℕ, ◌≡◌, refl, ◌⊎◌, inl, inr, true, false, Option, none, some, arith, Bool-cases, Option-cases,
}
use pitchfork.DaemonId.{DaemonId, id_eq, id_eq_iff, pitchfork_id}
use pitchfork.Config.{StopConfig}
use pitchfork.Daemon.{Daemon, DaemonStatus, stopped, running, unwrap_or}
use pitchfork.Daemon.Options.{UpsertDaemonOpts, Procs, builder, merge}
use pitchfork.Map.{id_key}
use pitchfork.State.{StateFile}
use pitchfork.State.Access.{get_daemon, upsert_daemon}
use pitchfork.State.Upsert.{get_daemon-upsert_daemon}
use pitchfork.Ipc.{
  IpcResponse, done, error, cannot_stop_supervisor, daemon_was_not_running, daemon_stop_failed,
  daemon_not_running, daemon_not_found,
}
use pitchfork.Lifecycle.Stop.{
  Killed, default_stop, stopping_opts, still_running_opts, stopped_opts, dead_opts, after_kill,
  stop_process, stop,
}

-- The daemon is in the state, with this process and this status.
abbrev pub IsIn : DaemonId → Option ℕ → DaemonStatus → StateFile → Type 0
IsIn id pid status s =
    (d : Daemon) × (get_daemon id s ≡ some d) × (d.pid ≡ pid) × (d.status ≡ status)

pub upsert_daemon-IsIn :
    (procs : Procs) (opts : UpsertDaemonOpts) (s : StateFile)
    → IsIn opts.id opts.pid opts.status (upsert_daemon procs opts s).0
unfolding upsert_daemon merge
upsert_daemon-IsIn procs opts s = (
  (upsert_daemon procs opts s).1,
  ground (arith, get_daemon-upsert_daemon procs opts opts.id s, id_eq_iff opts.id opts.id),
  refl,
  refl,
)

module _ (procs : Procs) (kill : ℕ → StopConfig → StateFile → Killed) (id : DaemonId)
    (s : StateFile) where
  -- The attempt that was made to kill the process of the daemon.
  abbrev pub attempt : Daemon → ℕ → Killed
  attempt d pid =
      kill pid (unwrap_or d.stop_signal default_stop)
        (upsert_daemon procs (stopping_opts id pid) s).0

  -- A daemon that was stopped, or had died, has no process and is stopped. Where stopping fails, its
  -- process runs on and the daemon has it. Otherwise nothing has changed, and the answer says why.
  abbrev pub Answers : StateFile × IpcResponse → Type 0
  Answers (t, done) =
      IsIn id none stopped t
      × (d : Daemon) × (pid : ℕ) × (get_daemon id s ≡ some d)
      × (d.pid ≡ some pid)
      × (procs.is_running pid ≡ true)
      × (((attempt d pid).failed ≡ false) ⊎ ((attempt d pid).procs.is_running pid ≡ false))
  Answers (t, daemon_was_not_running) =
      IsIn id none stopped t
      × (d : Daemon) × (pid : ℕ) × (get_daemon id s ≡ some d)
      × (d.pid ≡ some pid)
      × (procs.is_running pid ≡ false)
  Answers (t, daemon_stop_failed pid) =
      IsIn id (some pid) running t
      × (d : Daemon) × (get_daemon id s ≡ some d)
      × (d.pid ≡ some pid)
      × ((attempt d pid).failed ≡ true)
      × ((attempt d pid).procs.is_running pid ≡ true)
  Answers (t, daemon_not_running) =
      (t ≡ s) × (d : Daemon) × (get_daemon id s ≡ some d) × (d.pid ≡ none)
  Answers (t, daemon_not_found) = (t ≡ s) × (get_daemon id s ≡ none)
  Answers (t, error message) = (t ≡ s) × (id ≡ pitchfork_id) × (message ≡ cannot_stop_supervisor)
  Answers (t, _) = ⊥

  stop_process-Answers :
      (d : Daemon) (pid : ℕ)
      → get_daemon id s ≡ some d
      → d.pid ≡ some pid
      → Answers (stop_process procs kill id d pid s)
  unfolding stop_process after_kill stopped_opts dead_opts still_running_opts builder
  stop_process-Answers d pid e p = elim (Bool-cases (procs.is_running pid)) [
    | inl alive ↦ rw alive (elim (Bool-cases (attempt d pid).failed) [
      | inl failed ↦ rw failed (elim (Bool-cases ((attempt d pid).procs.is_running pid)) [
        | inl runs ↦
            rw runs (upsert_daemon-IsIn _ (still_running_opts id pid) _, d, e, p, failed, runs)
        | inr gone ↦
            rw gone (upsert_daemon-IsIn _ (stopped_opts id) _, d, pid, e, p, alive, inr gone)
      ])
      | inr worked ↦
          rw worked (upsert_daemon-IsIn _ (stopped_opts id) _, d, pid, e, p, alive, inl worked)
    ])
    | inr dead ↦ rw dead (upsert_daemon-IsIn _ (dead_opts id) _, d, pid, e, p, dead)
  ]

  -- What `stop` answers is so in the state that it leaves.
  pub stop-Answers : Answers (stop procs kill id s)
  unfolding stop
  stop-Answers = elim (Bool-cases (id_eq id pitchfork_id)) [
    | inl supervisor ↦ rw supervisor (refl, (id_eq_iff id pitchfork_id).0 supervisor, refl)
    | inr other ↦ rw other (elim (Option-cases (get_daemon id s)) [
      | inl unknown ↦ rw unknown (refl, unknown)
      | inr (d, known) ↦ elim (Option-cases d.pid) [
        | inl no_process ↦ rw known (rw no_process (refl, d, known, no_process))
        | inr (pid, has) ↦ rw known (rw has (stop_process-Answers d pid known has))
      ]
    ])
  ]
