-- ===== src/Batch/Examples.antt =====
-- Runs of src/ipc/batch.rs: a web server behind an interface behind a database, which runs already.
use pitchfork.Prelude.{
  ◌≡◌, refl, true, false, Option, none, some, [], ◌∷◌, arith, ok, keep, if◌then◌else◌,
}
use pitchfork.Text.{codes, text_eq, text_le}
use pitchfork.DaemonId.{DaemonId, id_eq, id_le}
use pitchfork.Config.{PitchforkTomlDaemon, Daemons, default_daemon}
use pitchfork.Daemon.{Daemon, running, RunOptions}
use pitchfork.Daemon.Options.{Procs, builder, merge}
use pitchfork.Deps.{
  Ids, elem, get, sort, insert_sorted, resolve_dependencies, collect, enqueue, order_levels,
  add_nodes, add_node, add_edge, add_edges, add_all, release, process_level, process_levels,
  total_depends, contains_key,
}
use pitchfork.Deps.Count.{count, IsSetOf}
use pitchfork.Deps.Stop.{IsShutdown}
use pitchfork.Similar.{FuzzyMatch}
use pitchfork.Map.{insert}
use pitchfork.Batch.{Surroundings, StartOptions, build_run_options, to_run_options}
use pitchfork.Batch.Start.{TaskResult, answered, Ports, Batch, start_daemons, running_daemons}
use pitchfork.Batch.Start.Order.{IsSequential, start_daemons-IsSequential}
use pitchfork.Batch.Start.Allowed.{AllAllowed, start_daemons-AllAllowed}
use pitchfork.Batch.Stop.{StopTask, stop_daemons}
use pitchfork.Batch.Stop.Complete.{IsComplete, stop_daemons-IsComplete, stop_daemons-IsShutdown}

abbrev db : DaemonId
db = record { namespace = codes "g"; name = codes "db" }

abbrev api : DaemonId
api = record { namespace = codes "g"; name = codes "api" }

abbrev web : DaemonId
web = record { namespace = codes "g"; name = codes "web" }

abbrev with : Ids → PitchforkTomlDaemon
with depends = record default_daemon { depends = depends }

abbrev config : Daemons
config = (api, with (db ∷ [])) ∷ (db, with []) ∷ (web, with (api ∷ db ∷ [])) ∷ []

abbrev no_match : FuzzyMatch
no_match candidate name = none

abbrev as_is : Ids → Ids
as_is ids = ids

abbrev procs : Procs
procs = record { title = λ pid. none; start_time = λ pid. none; is_running = λ pid. true }

abbrev live : DaemonId → Daemon
live id = merge procs (record (builder id) { status = running; pid = some 7 }) none

abbrev surroundings : Surroundings
surroundings = record {
  cwd = codes "/";
  global_user = codes "/home/u/.config/pitchfork/config.toml";
  global_system = codes "/etc/pitchfork/config.toml";
  global_slugs = [];
  resolve_namespace = λ entry. none;
  split = λ line. some (line ∷ []);
}

abbrev overrides : StartOptions
overrides = record {
  force = false;
  shell_pid = none;
  delay = some 1;
  output = none;
  http = some (codes "http://localhost");
  port = some 80;
  cmd = none;
  expected_port = none;
  auto_bump_port = none;
  retry = none;
  quiet = false;
}

-- The supervisor starts what it is asked to.
abbrev starts : RunOptions → TaskResult
starts o =
    answered (record { started = true; exit_code = none; start_time = 0; resolved_ports = [] })

abbrev render : Daemons → Ports → DaemonId → PitchforkTomlDaemon → Option PitchforkTomlDaemon
render daemons ports id d = some d

abbrev default : RunOptions
default = to_run_options surroundings db [] (with [])

-- The web server is started while the database runs: the interface comes before it.
abbrev started : Batch
started = record {
  any_failed = false;
  started = (api, 0, []) ∷ (web, 0, []) ∷ [];
  resolved_ports = (api, []) ∷ (web, []) ∷ [];
  pending_job_updates =
      (
        api,
        answered (record { started = true; exit_code = none; start_time = 0; resolved_ports = [] }),
      )
      ∷ (
        web,
        answered (record { started = true; exit_code = none; start_time = 0; resolved_ports = [] }),
      )
      ∷ [];
  levels =
      record { launched = web ∷ []; failed = false }
      ∷ record { launched = api ∷ []; failed = false }
      ∷ [];
}

started_web :
    start_daemons surroundings starts render no_match as_is default config []
      (live db ∷ [])
      (live db ∷ [])
      (web ∷ [])
      overrides
    ≡ ok started
unfolding start_daemons running_daemons elem get id_eq id_le text_eq text_le resolve_dependencies
    collect enqueue order_levels add_nodes add_node add_edge add_edges add_all release process_level
    process_levels total_depends sort insert_sorted insert build_run_options merge builder
started_web = refl

start_daemons-IsSequential_example :
    IsSequential config [] (running_daemons (live db ∷ [])) started.levels
start_daemons-IsSequential_example =
    start_daemons-IsSequential surroundings starts render no_match as_is default config []
      (live db ∷ []) (live db ∷ []) (web ∷ []) overrides started (λ ids x. refl) started_web

start_daemons-AllAllowed_example :
    AllAllowed [] (running_daemons (live db ∷ [])) (web ∷ []) overrides started.levels
start_daemons-AllAllowed_example =
    start_daemons-AllAllowed surroundings starts render no_match as_is default config []
      (live db ∷ []) (live db ∷ []) (web ∷ []) overrides started started_web

-- The task of the interface fails.
abbrev stops : DaemonId → StopTask
stops id = if id_eq id api then StopTask.failed else StopTask.done

only_web : IsSetOf (web ∷ [])
unfolding count
only_web x = ground arith

stop_daemons-IsComplete_example :
    IsComplete stops
      (running_daemons (live db ∷ live web ∷ []))
      (web ∷ [])
      (stop_daemons no_match as_is stops none (live db ∷ live web ∷ []) (web ∷ []))
stop_daemons-IsComplete_example =
    stop_daemons-IsComplete no_match as_is (λ ids x. refl) stops (live db ∷ live web ∷ []) none
      (web ∷ []) only_web

abbrev both : Ids
both = db ∷ web ∷ []

resolved :
    resolve_dependencies no_match as_is
      (keep
        (λ id. contains_key id config)
        (keep (λ id. elem id (running_daemons (live db ∷ live web ∷ []))) both))
      config
    ≡ ok ((db ∷ []) ∷ (api ∷ []) ∷ (web ∷ []) ∷ [])
unfolding running_daemons elem get id_eq id_le text_eq text_le resolve_dependencies collect enqueue
    order_levels add_nodes add_node add_edge add_edges add_all release process_level process_levels
    total_depends sort insert_sorted merge builder
resolved = refl

stop_daemons-IsShutdown_example :
    IsShutdown config []
      (stop_daemons no_match as_is stops (some config) (live db ∷ live web ∷ []) both).stopped
stop_daemons-IsShutdown_example =
    stop_daemons-IsShutdown no_match as_is (λ ids x. refl) stops (live db ∷ live web ∷ []) config
      both ((db ∷ []) ∷ (api ∷ []) ∷ (web ∷ []) ∷ []) resolved
