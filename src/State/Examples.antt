-- ===== src/State/Examples.antt =====
-- Runs of src/state_file.rs and src/supervisor/state.rs on a small state.
use pitchfork.Prelude.{
  ◌==◌, ◌&&◌, if◌then◌else◌, ◌≡◌, refl, true, false, Option, none, some, List, [], ◌∷◌, arith, ok,
}
use pitchfork.Text.{Text, codes, text_eq}
use pitchfork.Text.Decimal.{to_string, parse_u32, parse_u32-to_string}
use pitchfork.DaemonId.{DaemonId, id_eq}
use pitchfork.Config.{FilePath}
use pitchfork.Daemon.{Daemon, running, Configs}
use pitchfork.Daemon.Options.{UpsertDaemonOpts, Procs, merge}
use pitchfork.Map.{get, insert, remove, text_key, id_key}
use pitchfork.State.{
  StateFile, ProjectSession, empty_state, mark_dirty, insert_daemon, remove_daemon, disable_daemon,
  get_project_session, set_project_session, remove_project_session, remove_shell_dir,
}
use pitchfork.State.Access.{
  upsert_daemon, enter_project_session, leave_project_session, disable, switch,
}
use pitchfork.State.Ops.{Op, run, apply, upsert, shell, no_shell, session, no_session, drop}
use pitchfork.State.Invariant.{IsWellFormed, reachable-IsWellFormed}
use pitchfork.State.Dirty.{run_clean}
use pitchfork.State.Saving.{Persisted, Disk, change, flush, history, write_state}
use pitchfork.State.Durable.{IsSaved, IsAllOrNothing, history-IsSaved, write_state-IsAllOrNothing}
use pitchfork.State.Hosts.{leave-enter}
use pitchfork.State.Switch.{is_disabled}

abbrev api : DaemonId
api = record { namespace = codes "g"; name = codes "api" }

abbrev web : DaemonId
web = record { namespace = codes "g"; name = codes "web" }

abbrev procs : Procs
procs = record {
  title = λ pid. some (codes "sh");
  start_time = λ pid. none;
  is_running = λ pid. true;
}

abbrev opts : UpsertDaemonOpts
opts = record {
  id = api;
  pid = some 41;
  status = running;
  shell_pid = none;
  dir = some (codes "/srv");
  cmd = none;
  run = none;
  autostop = true;
  cron_schedule = none;
  cron_retrigger = none;
  cron_immediate = none;
  last_exit_success = none;
  retry = none;
  retry_count = none;
  ready_delay = none;
  ready_output = none;
  ready_http = none;
  ready_port = none;
  ready_cmd = none;
  port = none;
  resolved_port = [];
  active_port = none;
  slug = none;
  proxy = none;
  depends = none;
  env = none;
  watch = none;
  watch_mode = none;
  watch_base_dir = none;
  mise = none;
  user = none;
  memory_limit = none;
  cpu_limit = none;
  stop_signal = none;
  archive_hook = none;
  log_format = none;
  pty = none;
  config_registered = false;
}

abbrev fresh : StateFile
fresh = empty_state (codes "/state")

abbrev home : FilePath
home = codes "/home"

abbrev some_ops : List Op
some_ops =
    upsert procs opts
    ∷ shell 12 home
    ∷ session 12 home (record { liveness_title = none })
    ∷ no_session 12 home
    ∷ []

reachable-IsWellFormed_example : IsWellFormed (run some_ops fresh)
reachable-IsWellFormed_example =
    reachable-IsWellFormed (codes "/state") some_ops (tt, (omega arith, (omega arith, (tt, tt))))

abbrev removals : List Op
removals = drop api ∷ no_shell 12 ∷ no_session 12 home ∷ []

-- Removing what is not there.
still_clean : (run removals fresh).dirty ≡ false
unfolding run apply empty_state remove_daemon remove_shell_dir remove_project_session get remove
still_clean = refl

run_clean_example : run removals fresh ≡ fresh
run_clean_example = run_clean removals fresh still_clean

abbrev to_toml : Persisted → Option Text
to_toml p = some (codes "toml")

abbrev working : Disk
working = record { lock = true; create_dir = true; write = true; rename = true }

-- A disk that is full.
abbrev full : Disk
full = record { lock = true; create_dir = true; write = false; rename = true }

abbrev changed_state : StateFile
changed_state = record fresh { dirty = true }

nothing-IsSaved : IsSaved to_toml (changed_state, none)
unfolding empty_state
nothing-IsSaved = record { remembered = λ raw e. e; current = λ e. cc }

history-IsSaved_example : IsSaved to_toml (
    history to_toml
      (flush full ∷ change (upsert procs opts) ∷ flush working ∷ [])
      (changed_state, none))
history-IsSaved_example =
    history-IsSaved to_toml (flush full ∷ change (upsert procs opts) ∷ flush working ∷ [])
      changed_state none nothing-IsSaved

write_state-IsAllOrNothing_example :
    IsAllOrNothing to_toml changed_state none (write_state to_toml full changed_state none)
unfolding empty_state
write_state-IsAllOrNothing_example =
    write_state-IsAllOrNothing to_toml full changed_state none (λ text e. e)

parse_u32-to_string_example : parse_u32 (to_string 4294967295) ≡ some 4294967295
parse_u32-to_string_example = parse_u32-to_string 4294967295 (omega arith)

abbrev untitled : ProjectSession
untitled = record { liveness_title = none }

abbrev in_session : StateFile
in_session = (set_project_session 12 home untitled fresh).0

abbrev titled : ProjectSession
titled = record { liveness_title = some (codes "sh") }

let_in :
    enter_project_session true procs 12 home fresh ≡ ok (set_project_session 12 home titled fresh)
unfolding enter_project_session
let_in = refl

abbrev entered : StateFile × Option ProjectSession
entered = set_project_session 12 home titled fresh

leave-enter_example :
    (entered.1 ≡ get_project_session 12 home fresh)
    × ((leave_project_session 12 home entered.0).1 ≡ some home)
    × (get_project_session 12 home ((leave_project_session 12 home entered.0).0)
        ≡ (if (12 == 12) && text_eq home home then none else get_project_session 12 home fresh))
leave-enter_example =
    leave-enter true procs 12 12 home home fresh entered.0 entered.1 (omega arith) let_in

abbrev api_daemon : Daemon
api_daemon = merge procs opts none

abbrev no_configs : Configs
no_configs = record { all_merged_from = λ dir. none; all_merged_all_namespaces = none }

abbrev with_api : StateFile
with_api = (upsert_daemon procs opts fresh).0

api_enabled : is_disabled api with_api ≡ false
unfolding upsert_daemon insert_daemon mark_dirty get empty_state
api_enabled = refl

api_disabled : disable (some []) api with_api ≡ ok (disable_daemon api with_api)
unfolding disable switch upsert_daemon insert_daemon mark_dirty get insert empty_state id_eq text_eq
api_disabled = refl
