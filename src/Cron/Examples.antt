-- ===== src/Cron/Examples.antt =====
-- A schedule of src/supervisor/watchers.rs with a time every ten instants.
use pitchfork.Prelude.{◌+◌, ◌≡◌, refl, true, none, some, [], ◌∷◌, map}
use pitchfork.Text.{Text, codes, text_eq}
use pitchfork.DaemonId.{id_eq}
use pitchfork.Config.{always}
use pitchfork.Daemon.{Daemon, Configs, to_run_options}
use pitchfork.Daemon.Options.{Procs}
use pitchfork.Map.{get, id_key}
use pitchfork.State.{StateFile, empty_state, set_last_cron_triggered}
use pitchfork.State.Saving.{Disk}
use pitchfork.DaemonList.{build_placeholder_daemon}
use pitchfork.Toml.Parse.{daemon_of}
use pitchfork.Toml.Examples.{db, base, with}
use pitchfork.Cron.{Schedules, check_registered, should_trigger, should_run}

abbrev schedules : Schedules Text
schedules = record { from_str = λ text. some text; next_after = λ s t. some (t + 10) }

abbrev no_configs : Configs
no_configs = record { all_merged_from = λ dir. none; all_merged_all_namespaces = none }

abbrev backup_db : Daemon
backup_db = record (build_placeholder_daemon db (daemon_of 10 base [] (with []))) {
  cmd = some (codes "backup" ∷ []);
  cron_schedule = some (codes "* * * * *");
  cron_retrigger = some always;
  last_cron_triggered = some 5;
}

abbrev state : StateFile
state = record (empty_state (codes "/s")) { daemons = (db, backup_db) ∷ [] }

abbrev disk : Disk
disk = record { lock = true; create_dir = true; write = true; rename = true }

-- It runs once.
fires :
    map
      (λ entry. entry.0.id)
      (check_registered schedules no_configs
        (codes "/")
        (λ opts s. s)
        (λ p. some [])
        (λ id. disk)
        20
        (record { state = state; file = none; runs = [] })).runs
    ≡ db ∷ []
unfolding check_registered build_placeholder_daemon daemon_of get id_eq text_eq should_trigger
    should_run to_run_options set_last_cron_triggered
fires = refl

abbrev procs : Procs
procs = record { title = λ pid. none; start_time = λ pid. none; is_running = λ pid. true }
