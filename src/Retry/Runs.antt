-- ===== src/Retry/Runs.antt =====
-- What src/supervisor/retry.rs runs.
use pitchfork.Prelude.{
  ◌≤◌, ◌<◌, ◌≡◌, refl, true, false, some, List, [], ◌∷◌, ◌++◌, ap, arith, Bool-cases, Option-cases,
  inl, inr, All,
}
use pitchfork.Text.{Text}
use pitchfork.DaemonId.{DaemonId}
use pitchfork.Config.{FilePath}
use pitchfork.Daemon.{Daemon, RunOptions, Configs, to_run_options}
use pitchfork.Daemon.Options.{Procs}
use pitchfork.Map.{get, id_key, is_some}
use pitchfork.State.{StateFile}
use pitchfork.Retry.{
  is_errored, needs_retry, Retrying, retry_opts, retry_daemon, retry_one, retry_all, check_retry,
  ids_to_retry,
}

module _ (procs : Procs) (configs : Configs) (cwd : FilePath)
    (run : RunOptions → StateFile → StateFile) where
  -- The run is the next attempt at one of these daemons: in the state that the daemons before it leave,
  -- and with which the run starts, it is errored, has no process and has attempts left.
  pub record IsAttempt (ids : List DaemonId) (r : Retrying) (opts : RunOptions) : Type 0 where
    pub before : List DaemonId
    pub id : DaemonId
    pub after : List DaemonId
    pub daemon : Daemon
    pub cmd : List Text
    pub turn : ids ≡ before ++ id ∷ after
    pub found : get id (retry_all procs configs cwd run before r).state.daemons ≡ some daemon
    pub command : daemon.cmd ≡ some cmd
    pub errored : is_errored daemon.status ≡ true
    pub no_process : is_some daemon.pid ≡ false
    pub run_as : opts ≡ retry_opts configs cwd daemon cmd
    pub attempt : (0 < opts.retry_count) × (opts.retry_count ≤ opts.retry.count)

  -- What is run at the turn of a daemon that needs a retry, after the runs so far.
  retry_daemon-IsAttempt :
      (P : RunOptions → Type 0) (id : DaemonId) (d : Daemon) (ids : List DaemonId) (r : Retrying)
      → get id r.state.daemons ≡ some d
      → needs_retry d ≡ true
      → All P r.runs
      → ((opts : RunOptions) → IsAttempt (id ∷ ids) r opts → P opts)
      → All P (retry_daemon procs configs cwd run id d r).runs
  unfolding retry_daemon retry_opts to_run_options needs_retry retry_all
  retry_daemon-IsAttempt P id d ids r found again all holds = elim (Option-cases d.cmd) [
    | inl no_cmd ↦ rw (no_cmd, retry_daemon) all
    | inr (cmd, has) ↦
        rw (has, retry_daemon)
          (
            holds (retry_opts configs cwd d cmd) (record {
              before = [];
              id = id;
              after = ids;
              daemon = d;
              cmd = cmd;
              turn = refl;
              found = found;
              command = has;
              errored = ground (arith, again);
              no_process = ground (arith, again);
              run_as = refl;
              attempt = (omega arith, ground (arith, again));
            }),
            all,
          )
  ]

  retry_one-IsAttempt :
      (P : RunOptions → Type 0) (id : DaemonId) (ids : List DaemonId) (r : Retrying)
      → All P r.runs
      → ((opts : RunOptions) → IsAttempt (id ∷ ids) r opts → P opts)
      → All P (retry_one procs configs cwd run id r).runs
  unfolding retry_one
  retry_one-IsAttempt P id ids r all holds = elim (Option-cases (get id r.state.daemons)) [
    | inl absent ↦ rw (absent, retry_one) all
    | inr (d, found) ↦ elim (Bool-cases (needs_retry d)) [
      | inr unneeded ↦ rw (found, retry_one) (rw unneeded all)
      | inl again ↦
          rw (found, retry_one)
            (rw again (retry_daemon-IsAttempt P id d ids r found again all holds))
    ]
  ]

  later :
      (id : DaemonId) (ids : List DaemonId) (r : Retrying) (opts : RunOptions)
      → IsAttempt ids (retry_one procs configs cwd run id r) opts
      → IsAttempt (id ∷ ids) r opts
  unfolding retry_all
  later id ids r opts a = record {
    before = id ∷ a.before;
    id = a.id;
    after = a.after;
    daemon = a.daemon;
    cmd = a.cmd;
    turn = ap (λ l. id ∷ l) a.turn;
    found = a.found;
    command = a.command;
    errored = a.errored;
    no_process = a.no_process;
    run_as = a.run_as;
    attempt = a.attempt;
  }

  retry_all-IsAttempt :
      (P : RunOptions → Type 0) (ids : List DaemonId) (r : Retrying)
      → All P r.runs
      → ((opts : RunOptions) → IsAttempt ids r opts → P opts)
      → All P (retry_all procs configs cwd run ids r).runs
  unfolding retry_all
  retry_all-IsAttempt P [] r all holds = all
  retry_all-IsAttempt P (id ∷ ids) r all holds =
      retry_all-IsAttempt P ids (retry_one procs configs cwd run id r)
        (retry_one-IsAttempt P id ids r all holds) (λ opts a. holds opts (later id ids r opts a))

  -- Whatever `run` does to the state, a check runs only daemons that it has picked from the state and
  -- that are, when their turn comes, in the state that the turns before have left: errored, without a
  -- process and with attempts left. Each is run with its options in that state and the next number of
  -- attempt, which is not above the number allowed.
  pub check_retry-IsAttempt :
      (state : StateFile)
      → let start : Retrying = record { state = state; hooks = []; runs = [] } in
        All
          (IsAttempt (ids_to_retry state.daemons) start)
          (check_retry procs configs cwd run start).runs
  unfolding check_retry
  check_retry-IsAttempt state =
      let start : Retrying = record { state = state; hooks = []; runs = [] } in
      retry_all-IsAttempt (IsAttempt (ids_to_retry state.daemons) start)
        (ids_to_retry state.daemons) start tt (λ opts a. a)
