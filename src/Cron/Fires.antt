-- ===== src/Cron/Fires.antt =====
-- What `check_cron_schedules` of src/supervisor/watchers.rs runs, and when.
use pitchfork.Prelude.{ℕ, ◌-◌, ◌≤◌, ◌≡◌, ◌⊎◌, true, false, Option, none, some, List}
use pitchfork.Text.{Text}
use pitchfork.DaemonId.{DaemonId}
use pitchfork.Config.{FilePath, CronRetrigger, finish, always, success, fail}
use pitchfork.Daemon.{Daemon, RunOptions, Configs, unwrap_or}
use pitchfork.Map.{get, id_key}
use pitchfork.State.{StateFile}
use pitchfork.State.Saving.{Persisted, Disk}
use pitchfork.Cron.{Schedules, look_back, cron_opts}

abbrev triggered : ℕ → Daemon → Daemon
triggered now d = record d { last_cron_triggered = some now }

-- The daemon may be run for its schedule: any time, to be restarted; or only without a process, and
-- then at the end of each run, or where the last run did not fail, or where it did not succeed.
abbrev pub MayRun : CronRetrigger → Daemon → Type 0
MayRun always d = Unit
MayRun finish d = d.pid ≡ none
MayRun success d =
    (d.pid ≡ none) × ((d.last_exit_success ≡ none) ⊎ (d.last_exit_success ≡ some true))
MayRun fail d = (d.pid ≡ none) × ((d.last_exit_success ≡ none) ⊎ (d.last_exit_success ≡ some false))

module _ {S : Type 0} (schedules : Schedules S) (configs : Configs) (cwd : FilePath)
    (run : RunOptions → StateFile → StateFile) (to_toml : Persisted → Option Text)
    (disk : DaemonId → Disk) (now : ℕ) where
  -- The run is one of a daemon whose schedule has a time since it was triggered last, up to now. The
  -- state that it starts from says that the daemon was triggered now.
  pub record IsDue (entry : RunOptions × StateFile) : Type 0 where
    pub id : DaemonId
    pub daemon : Daemon
    pub schedule_str : Text
    pub retrigger : CronRetrigger
    pub schedule : S
    pub since : ℕ
    pub time : ℕ
    pub cmd : List Text
    pub marked : get id entry.1.daemons ≡ some (record daemon { last_cron_triggered = some now })
    pub has_schedule : daemon.cron_schedule ≡ some schedule_str
    pub has_retrigger : daemon.cron_retrigger ≡ some retrigger
    pub parsed : schedules.from_str schedule_str ≡ some schedule
    pub last :
        (daemon.last_cron_triggered ≡ some since)
        ⊎ ((daemon.last_cron_triggered ≡ none)
            × (unwrap_or daemon.cron_immediate false ≡ true)
            × (since ≡ now - look_back))
    pub next : schedules.next_after schedule since ≡ some time
    pub passed : time ≤ now
    pub allowed : MayRun retrigger daemon
    pub command : daemon.cmd ≡ some cmd
    pub opts : entry.0 ≡ cron_opts configs cwd daemon schedule_str retrigger cmd
