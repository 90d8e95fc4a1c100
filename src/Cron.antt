-- ===== src/Cron.antt =====
-- The schedules of src/supervisor/watchers.rs: `check_cron_schedules`, with
-- `register_config_cron_daemons` before it. The parser of schedules, and `run`, which is any function
-- that changes the state, are parameters; an instant is a number of nanoseconds.
pub mod Fires
mod Examples
use pitchfork.Prelude.{
  ℕ, ◌-◌, ◌*◌, ◌^◌, leb, Bool, true, false, not, ◌&&◌, Option, none, some, List, [], ◌∷◌,
  if◌then◌else◌,
}
use pitchfork.Text.{Text}
use pitchfork.DaemonId.{DaemonId, id_eq}
use pitchfork.Config.{
  FilePath, CronRetrigger, finish, always, success, fail, PitchforkTomlDaemon, Daemons,
}
use pitchfork.Daemon.{Daemon, RunOptions, Configs, to_run_options, unwrap_or, stopped}
use pitchfork.Daemon.Options.{UpsertDaemonOpts, Procs, from_run_options}
use pitchfork.Deps
use pitchfork.Map.{Map, get, is_some, id_key}
use pitchfork.State.{StateFile, set_last_cron_triggered, remove_daemon}
use pitchfork.State.Access.{upsert_daemon}
use pitchfork.State.Saving.{Persisted, Disk, write_state}
use pitchfork.Batch.{Surroundings}
use pitchfork.Batch

-- What a library makes of schedules: the text, and the first time after another.
pub record Schedules (S : Type 0) : Type 0 where
  pub from_str : Text → Option S
  pub next_after : S → ℕ → Option ℕ

-- The state, its file, and the runs with the state that each starts from, the last one first.
pub record Checked : Type 0 where
  pub state : StateFile
  pub file : Option Text
  pub runs : List (RunOptions × StateFile)

-- Ten seconds.
abbrev pub look_back : ℕ
look_back = 10000000000

unfoldable pub should_run : CronRetrigger → Daemon → Bool
should_run finish d = not (is_some d.pid)
should_run always d = true
should_run success d = not (is_some d.pid) && unwrap_or d.last_exit_success true
should_run fail d = not (is_some d.pid) && not (unwrap_or d.last_exit_success false)

abbrev pub is_always : CronRetrigger → Bool
is_always finish = false
is_always always = true
is_always success = false
is_always fail = false

unfoldable pub ids_with_schedule : Map DaemonId Daemon → List DaemonId
ids_with_schedule [] = []
ids_with_schedule ((id, d) ∷ m) =
    let rest = ids_with_schedule m in
    if is_some d.cron_schedule && is_some d.cron_retrigger then id ∷ rest else rest

unfoldable pub cron_opts :
    Configs → (cwd : FilePath) → Daemon → Text → CronRetrigger → List Text → RunOptions
cron_opts configs cwd d schedule_str retrigger cmd = record (to_run_options configs cwd d cmd) {
  dir = unwrap_or d.dir cwd;
  force = is_always retrigger;
  wait_ready = false;
  cron_schedule = some schedule_str;
  cron_retrigger = some retrigger;
}

module _ {S : Type 0} (schedules : Schedules S) (configs : Configs) (cwd : FilePath)
    (run : RunOptions → StateFile → StateFile) (to_toml : Persisted → Option Text)
    (disk : DaemonId → Disk) (now : ℕ) where
  -- Writing it to the file may fail, which is only logged.
  unfoldable pub trigger_at_now : DaemonId → Checked → Checked
  trigger_at_now id c =
      let (state, known) = set_last_cron_triggered id now c.state in
      let attempt = write_state to_toml (disk id) state c.file in
      if known then record c { state = attempt.state; file = attempt.file } else c

  unfoldable pub should_trigger : S → (since : ℕ) → Bool
  should_trigger schedule since = elim (schedules.next_after schedule since) [
    | none ↦ false
    | some t ↦ leb t now
  ]

  unfoldable pub run_command :
      Daemon → Text → CronRetrigger → Option (List Text) → Checked → Checked
  unfolding cron_opts
  run_command d schedule_str retrigger none c = c
  run_command d schedule_str retrigger (some cmd) c =
      let opts = cron_opts configs cwd d schedule_str retrigger cmd in
      record c { state = run opts c.state; runs = (opts, c.state) ∷ c.runs }

  unfoldable pub fire : Daemon → Text → CronRetrigger → Checked → Checked
  unfolding run_command
  fire d schedule_str retrigger c =
      if should_run retrigger d then run_command d schedule_str retrigger d.cmd c else c

  unfoldable pub check_from :
      DaemonId → Daemon → Text → CronRetrigger → S → (since : ℕ) → Checked → Checked
  unfolding fire trigger_at_now
  check_from id d schedule_str retrigger schedule since c =
      if should_trigger schedule since
      then fire d schedule_str retrigger (trigger_at_now id c)
      else c

  -- Since it was triggered last; otherwise the last ten seconds, or nothing yet.
  unfoldable pub check_since :
      DaemonId → Daemon → Text → CronRetrigger → S → Option ℕ → Checked → Checked
  unfolding check_from
  check_since id d schedule_str retrigger schedule (some t) c =
      check_from id d schedule_str retrigger schedule t c
  check_since id d schedule_str retrigger schedule none c =
      if unwrap_or d.cron_immediate false
      then check_from id d schedule_str retrigger schedule (now - look_back) c
      else trigger_at_now id c

  -- A schedule that cannot be parsed is passed over.
  unfoldable pub check_parsed :
      DaemonId → Daemon → Text → CronRetrigger → Option S → Checked → Checked
  unfolding check_since
  check_parsed id d schedule_str retrigger none c = c
  check_parsed id d schedule_str retrigger (some schedule) c =
      check_since id d schedule_str retrigger schedule d.last_cron_triggered c

  unfoldable pub check_schedule :
      DaemonId → Daemon → Option Text → Option CronRetrigger → Checked → Checked
  unfolding check_parsed
  check_schedule id d none retrigger c = c
  check_schedule id d (some schedule_str) none c = c
  check_schedule id d (some schedule_str) (some retrigger) c =
      check_parsed id d schedule_str retrigger (schedules.from_str schedule_str) c

  unfoldable pub check_daemon : DaemonId → Option Daemon → Checked → Checked
  unfolding check_schedule
  check_daemon id none c = c
  check_daemon id (some d) c = check_schedule id d d.cron_schedule d.cron_retrigger c

  unfoldable pub check_ids : List DaemonId → Checked → Checked
  unfolding check_daemon
  check_ids [] c = c
  check_ids (id ∷ ids) c = check_ids ids (check_daemon id (get id c.state.daemons) c)

  -- After the daemons of the configuration are registered.
  unfoldable pub check_registered : Checked → Checked
  unfolding check_ids ids_with_schedule
  check_registered c = check_ids (ids_with_schedule c.state.daemons) c

-- Daemons of the state that were registered and have no schedule in the configuration any more.
unfoldable pub stale_ids : Daemons → Map DaemonId Daemon → List DaemonId
stale_ids config [] = []
stale_ids config ((id, d) ∷ m) =
    let rest = stale_ids config m in
    elim (Deps.get id config) [
      | none ↦ (if d.config_registered then id ∷ rest else rest)
      | some p ↦ (if d.config_registered && not (is_some p.cron) then id ∷ rest else rest)
    ]

unfoldable pub remove_all : List DaemonId → StateFile → StateFile
remove_all [] s = s
remove_all (id ∷ ids) s = remove_all ids (remove_daemon id s)

-- Daemons with a schedule that the state does not have.
unfoldable pub to_register : Daemons → StateFile → Daemons
to_register [] s = []
to_register ((id, p) ∷ config) s =
    let rest = to_register config s in
    if is_some p.cron && not (is_some (get id s.daemons)) then (id, p) ∷ rest else rest

module _ (procs : Procs) (w : Surroundings) where
  unfoldable pub register_opts : DaemonId → PitchforkTomlDaemon → List Text → UpsertDaemonOpts
  register_opts id p cmd = record (from_run_options (Batch.to_run_options w id cmd p) stopped) {
    config_registered = true;
  }

  unfoldable pub register_all : Daemons → StateFile → StateFile
  unfolding register_opts
  register_all [] s = s
  register_all ((id, p) ∷ more) s = register_all more (elim (w.split p.run) [
    | none ↦ s
    | some cmd ↦ (upsert_daemon procs (register_opts id p cmd) s).0
  ])

  unfoldable pub register_config_cron_daemons : Daemons → StateFile → StateFile
  unfolding register_all to_register stale_ids remove_all
  register_config_cron_daemons config s =
      let kept = remove_all (stale_ids config s.daemons) s in
      register_all (to_register config kept) kept

-- A round of `cron_watch`. When the configuration cannot be read, that is only logged.
unfoldable pub check_cron_schedules :
    {S : Type 0}
    → Schedules S
    → Configs
    → Procs
    → Surroundings
    → (RunOptions → StateFile → StateFile)
    → (Persisted → Option Text)
    → (DaemonId → Disk)
    → (now : ℕ) → Option Daemons
    → StateFile
    → Option Text
    → Checked
unfolding check_registered register_config_cron_daemons
check_cron_schedules schedules configs procs w run to_toml disk now none s file = record {
  state = s;
  file = file;
  runs = [];
}
check_cron_schedules schedules configs procs w run to_toml disk now (some config) s file =
    check_registered schedules configs w.cwd run to_toml disk now
      (record { state = register_config_cron_daemons procs w config s; file = file; runs = [] })
