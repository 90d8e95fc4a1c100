-- ===== src/Retry/Examples.antt =====
-- Runs of src/supervisor/retry.rs on a daemon that fails.
use pitchfork.Prelude.{if◌then◌else◌, ◌+◌, ◌≡◌, refl, ltb, true, none, some, [], ◌∷◌, pos, All}
use pitchfork.Text.{codes}
use pitchfork.DaemonId.{DaemonId}
use pitchfork.Daemon.{Daemon, errored, Configs, RunOptions}
use pitchfork.Daemon.Options.{Procs, UpsertDaemonOpts, builder, merge}
use pitchfork.Map.{id_key}
use pitchfork.State.{StateFile, empty_state}
use pitchfork.State.Access.{upsert_daemon}
use pitchfork.Retry.{needs_retry, check_retry, ids_to_retry, Retrying}
use pitchfork.Retry.Attempts.{Attempt, next, fail_once, fail_each, needs_retry-fail_each}
use pitchfork.Lifecycle.Exit.{exited, fail, on_fail, on_exit, hooks_to_fire}
use pitchfork.Lifecycle.Examples.{host}
use pitchfork.Retry.Runs.{IsAttempt, check_retry-IsAttempt}

abbrev api : DaemonId
api = record { namespace = codes "g"; name = codes "api" }

abbrev procs : Procs
procs = record { title = λ pid. none; start_time = λ pid. none; is_running = λ pid. true }

abbrev no_configs : Configs
no_configs = record { all_merged_from = λ dir. none; all_merged_all_namespaces = none }

abbrev opts : UpsertDaemonOpts
opts = record (builder api) {
  status = errored (pos 1);
  cmd = some (codes "serve" ∷ []);
  retry = some (record { count = 2 });
}

abbrev failed_api : Daemon
failed_api = merge procs opts none

may_retry : needs_retry failed_api ≡ true
unfolding needs_retry merge builder
may_retry = refl

abbrev attempt : Attempt
attempt = record {
  host = host;
  pid = 41;
  resolved = [];
  ready_port = none;
  status = exited (pos 1);
  procs = procs;
}

needs_retry-fail_each_example :
    let d' = fail_each no_configs (codes "/") (codes "serve" ∷ []) (attempt ∷ []) failed_api in
    let next_opts = next no_configs (codes "/") (codes "serve" ∷ []) d' in
    (needs_retry d' ≡ ltb (failed_api.retry_count + 1) failed_api.retry.count)
    × (hooks_to_fire fail next_opts.retry_count next_opts.retry ≡ (
        if needs_retry (fail_once no_configs (codes "/") (codes "serve" ∷ []) attempt d')
        then []
        else on_fail ∷ on_exit ∷ []))
unfolding merge builder
needs_retry-fail_each_example =
    needs_retry-fail_each no_configs (codes "/") (codes "serve" ∷ []) (attempt ∷ []) attempt
      failed_api may_retry refl

abbrev ignore : RunOptions → StateFile → StateFile
ignore o s = s

abbrev failed_state : StateFile
failed_state = (upsert_daemon procs opts (empty_state (codes "/s"))).0

abbrev beginning : Retrying
beginning = record { state = failed_state; hooks = []; runs = [] }

check_retry-IsAttempt_example :
    All
      (IsAttempt procs no_configs (codes "/") ignore (ids_to_retry failed_state.daemons) beginning)
      (check_retry procs no_configs (codes "/") ignore beginning).runs
check_retry-IsAttempt_example =
    check_retry-IsAttempt procs no_configs (codes "/") ignore failed_state
