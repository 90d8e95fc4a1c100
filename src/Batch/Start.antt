-- ===== src/Batch/Start.antt =====
-- `start_daemons` of src/ipc/batch.rs. The tasks of a level run side by side; what the supervisor
-- answers to each, and what the template library makes of a configuration, are parameters.
pub mod Loop
pub mod Order
pub mod Allowed
pub mod Complete
use pitchfork.Prelude.{
  ℕ, Bool, true, false, not, ◌&&◌, ◌||◌, Option, none, some, List, [], ◌∷◌, ◌++◌, map,
  if◌then◌else◌, is_empty, keep, Result, ok, err, ◌>>=◌, ℤ,
}
use pitchfork.Text.{Text}
use pitchfork.DaemonId.{DaemonId}
use pitchfork.Config.{FilePath, PitchforkTomlDaemon, Daemons, ReadyHttp, Env, Retry, PortBump}
use pitchfork.Daemon.{Daemon, DaemonStatus, RunOptions, or_else, unwrap_or, and_then}
use pitchfork.Deps.{Ids, elem, get, contains_key, DependencyError, resolve_dependencies}
use pitchfork.Similar.{FuzzyMatch}
use pitchfork.Map
use pitchfork.Map.{Map, id_key, is_some}
use pitchfork.Batch.{
  Surroundings, StartOptions, build_run_options, from_parts, merge_ready_http_override,
}

pub record RunResult : Type 0 where
  pub started : Bool
  pub exit_code : Option ℤ
  pub start_time : ℕ
  pub resolved_ports : List ℕ

-- What becomes of the task of a daemon: the supervisor answers, or there is an error, or it panics.
pub data TaskResult : Type 0 where
  answered : (result : RunResult) → TaskResult
  failed panicked : TaskResult

abbrev pub Ports : Type 0
Ports = Map DaemonId (List ℕ)

-- A task: a daemon with the options that it is to run with, or none if its command cannot be read.
abbrev pub Task : Type 0
Task = DaemonId × Option RunOptions

-- A level: what was asked to run in it, and whether something of it failed.
pub record Level : Type 0 where
  pub launched : Ids
  pub failed : Bool

-- The variables of `start_daemons`; and the levels so far, the last one first.
pub record Batch : Type 0 where
  pub any_failed : Bool
  pub started : List (DaemonId × ℕ × List ℕ)
  pub resolved_ports : Ports
  pub pending_job_updates : List (DaemonId × TaskResult)
  pub levels : List Level

pub record StartResult : Type 0 where
  pub started : List (DaemonId × ℕ × List ℕ)
  pub any_failed : Bool
  pub pending_job_updates : List (DaemonId × TaskResult)

abbrev pub is_live : DaemonStatus → Bool
is_live (DaemonStatus.failed message) = false
is_live DaemonStatus.waiting = true
is_live DaemonStatus.running = true
is_live DaemonStatus.stopping = false
is_live (DaemonStatus.errored code) = false
is_live DaemonStatus.stopped = false

-- The daemons that are running or waiting.
unfoldable pub running_daemons : List Daemon → Ids
running_daemons ds = map (λ d. d.id) (keep (λ d. is_live d.status) ds)

unfoldable pub find_daemon : DaemonId → List Daemon → Option Daemon
find_daemon id [] = none
find_daemon id (d ∷ ds) = elim (find_daemon id ds) [
  | some later ↦ some later
  | none ↦ (if elem id (d.id ∷ []) then some d else none)
]

unfoldable pub running_ports : List Daemon → DaemonId → Option (List ℕ)
unfolding find_daemon
running_ports ds id =
    and_then (find_daemon id (keep (λ d. is_live d.status && not (is_empty d.resolved_port)) ds))
      (λ d. some d.resolved_port)

-- The outcome is a failure; a daemon that did not start and has no exit code, such as one that runs
-- already, is none.
abbrev pub is_failure : TaskResult → Bool
is_failure (answered r) = not r.started && is_some r.exit_code
is_failure failed = true
is_failure panicked = true

abbrev pub newly_started : DaemonId → TaskResult → List (DaemonId × ℕ × List ℕ)
newly_started id (answered r) = if r.started then (id, r.start_time, r.resolved_ports) ∷ [] else []
newly_started id failed = []
newly_started id panicked = []

abbrev pub update_of : DaemonId → TaskResult → List (DaemonId × TaskResult)
update_of id (answered r) = (id, answered r) ∷ []
update_of id failed = (id, failed) ∷ []
update_of id panicked = []

-- A task is awaited.
unfoldable pub settle : DaemonId → TaskResult → Batch → Batch
settle id r b = record b {
  any_failed = b.any_failed || is_failure r;
  started = b.started ++ newly_started id r;
  pending_job_updates = b.pending_job_updates ++ update_of id r;
}

-- Ports become visible once their whole level is done.
unfoldable pub publish : List (DaemonId × ℕ × List ℕ) → Ports → Ports
publish [] ports = ports
publish ((id, time, resolved) ∷ more) ports = publish more (Map.insert id resolved ports)

module _ (w : Surroundings) (run : RunOptions → TaskResult)
    (render : Daemons → Ports → DaemonId → PitchforkTomlDaemon → Option PitchforkTomlDaemon)
    (pt : Daemons) (disabled : Ids) (requested : Ids) (opts : StartOptions) (running : Ids)
    (ports_of : DaemonId → Option (List ℕ)) where
  abbrev pub explicit : DaemonId → Bool
  explicit id = elem id requested

  -- The daemon is to be started: it is not disabled, and not running unless it is to be replaced.
  abbrev pub to_start : DaemonId → Bool
  to_start id =
      not (elem id disabled) && (if elem id running then opts.force && explicit id else true)

  abbrev pub start_opts : DaemonId → StartOptions
  start_opts id = record opts { force = opts.force && explicit id }

  abbrev pub task_result : Option RunOptions → TaskResult
  task_result none = failed
  task_result (some o) = run o

  unfoldable pub await_all : List Task → Batch → Batch
  unfolding settle
  await_all [] b = b
  await_all ((id, o) ∷ tasks) b = await_all tasks (settle id (task_result o) b)

  -- The tasks of a level, and whether a configuration cannot be rendered.
  unfoldable pub spawn_all : Ids → Ports → List Task × Bool
  unfolding build_run_options
  spawn_all [] ports = ([], false)
  spawn_all (id ∷ ids) ports =
      let (tasks, broken) = spawn_all ids ports in
      elim (get id pt) [
        | none ↦ (tasks, broken)
        | some d ↦ elim (render pt ports id d) [
          | none ↦ (tasks, true)
          | some rendered ↦
              ((id, build_run_options w id rendered (some (start_opts id))) ∷ tasks, broken)
        ]
      ]

  abbrev pub ids_of : List Task → Ids
  ids_of tasks = map (λ t. t.0) tasks

  unfoldable pub add_running_ports : Ids → Ports → Ports
  add_running_ports [] ports = ports
  add_running_ports (id ∷ ids) ports =
      add_running_ports ids
        (elim (ports_of id) [ none ↦ ports | some resolved ↦ Map.insert id resolved ports ])

  -- A level of which something is to be started.
  unfoldable pub start_level : Ids → Batch → Batch
  unfolding spawn_all await_all publish
  start_level ids b =
      let (tasks, broken) = spawn_all ids b.resolved_ports in
      let b' = await_all tasks (record b { any_failed = b.any_failed || broken; started = [] }) in
      record b' {
        started = b.started ++ b'.started;
        resolved_ports = publish b'.started b.resolved_ports;
        levels = record { launched = ids_of tasks; failed = b'.any_failed } ∷ b.levels;
      }

  unfoldable pub start_levels : List Ids → Batch → Batch
  unfolding start_level add_running_ports
  start_levels [] b = b
  start_levels (level ∷ rest) b =
      let b1 = record b { resolved_ports = add_running_ports level b.resolved_ports } in
      let b2 = start_level (keep to_start level) b1 in
      let without = start_levels rest b1 in
      let further = start_levels rest b2 in
      if is_empty (keep to_start level) then without else (if b2.any_failed then b2 else further)

  -- The options of a daemon that is not configured and is started with its saved command.
  unfoldable pub adhoc_opts : DaemonId → Daemon → List Text → RunOptions → RunOptions
  unfolding merge_ready_http_override from_parts
  adhoc_opts id d cmd default = record default {
    id = id;
    cmd = cmd;
    force = opts.force && explicit id;
    shell_pid = opts.shell_pid;
    dir = unwrap_or d.dir [];
    retry = unwrap_or opts.retry (record { count = 0 });
    ready_delay = or_else opts.delay (some 3);
    ready_output =
        and_then opts.output (λ pattern. some (record { pattern = pattern; timeout = none }));
    ready_http = merge_ready_http_override d.ready_http opts.http;
    ready_port =
        and_then opts.port
          (λ port. some (record { port = some port; template = none; timeout = none }));
    ready_cmd = and_then opts.cmd (λ run. some (record { run = run; timeout = none }));
    port =
        from_parts (unwrap_or opts.expected_port [])
          (unwrap_or opts.auto_bump_port (record { attempts = 0 }));
    wait_ready = true;
    env = d.env;
    watch = [];
    watch_base_dir = none;
    mise = none;
    slug = none;
    proxy = none;
  }

  abbrev pub may_replace : DaemonId → Bool
  may_replace id = not (elem id running) || (opts.force && explicit id)

  unfoldable pub spawn_adhoc : (default : RunOptions) (adhoc : List Daemon) → Ids → List Task
  unfolding adhoc_opts find_daemon
  spawn_adhoc default adhoc [] = []
  spawn_adhoc default adhoc (id ∷ ids) =
      let tasks = spawn_adhoc default adhoc ids in
      if may_replace id
      then elim (find_daemon id adhoc) [
        | none ↦ tasks
        | some d ↦ elim d.cmd [
          | none ↦ tasks
          | some cmd ↦ (id, some (adhoc_opts id d cmd default)) ∷ tasks
        ]
      ]
      else tasks

  unfoldable pub start_adhoc : RunOptions → List Daemon → Ids → Batch → Batch
  unfolding spawn_adhoc await_all
  start_adhoc default adhoc ids b =
      let b' = await_all (spawn_adhoc default adhoc ids) b in
      if b.any_failed || is_empty ids then b else record b' {
        levels =
            record { launched = ids_of (spawn_adhoc default adhoc ids); failed = b'.any_failed }
            ∷ b.levels;
      }

abbrev pub empty_batch : Batch
empty_batch = record {
  any_failed = false;
  started = [];
  resolved_ports = [];
  pending_job_updates = [];
  levels = [];
}

-- `all_daemons` and `active_daemons` are the answers to the two requests for the active daemons, and
-- `default` the options of `RunOptions::default`.
unfoldable pub start_daemons :
    (w : Surroundings) (run : RunOptions → TaskResult)
    (render : Daemons → Ports → DaemonId → PitchforkTomlDaemon → Option PitchforkTomlDaemon)
    (fuzzy_match : FuzzyMatch) (hash_order : Ids → Ids) (default : RunOptions) (pt : Daemons)
    (disabled : Ids) (all_daemons active_daemons : List Daemon) (ids : Ids) (opts : StartOptions)
    → Result DependencyError Batch
unfolding running_daemons running_ports start_levels start_adhoc
start_daemons w run render fuzzy_match hash_order default pt disabled all_daemons active_daemons ids
      opts =
    let requested_ids = keep (λ id. not (elem id disabled)) ids in
    let config_ids = keep (λ id. contains_key id pt) requested_ids in
    let adhoc_ids = keep (λ id. not (contains_key id pt)) requested_ids in
    let running = running_daemons active_daemons in
    let adhoc = keep (λ d. not (contains_key d.id pt)) all_daemons in
    let finish =
      start_adhoc w run render pt disabled ids opts running (running_ports active_daemons) default
        adhoc adhoc_ids in
    if is_empty requested_ids
    then ok empty_batch
    else (if is_empty config_ids
        then ok (finish empty_batch)
        else elim (resolve_dependencies fuzzy_match hash_order config_ids pt) [
          | err e ↦ err e
          | ok levels ↦ ok (
              finish (
                start_levels w run render pt disabled ids opts running
                  (running_ports active_daemons) levels empty_batch))
        ])

-- What `start_daemons` returns of it.
abbrev pub result_of : Batch → StartResult
result_of b = record {
  started = b.started;
  any_failed = b.any_failed;
  pending_job_updates = b.pending_job_updates;
}
