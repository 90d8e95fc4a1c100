-- ===== src/Daemon/Options.antt =====
-- `UpsertDaemonOpts` of src/supervisor/state.rs: what a daemon is to become, each part of it
-- optional where the daemon that is already known has one to keep; and the merge of the two.
use pitchfork.Prelude.{
  ℕ, Bool, false, ◌||◌, ◌==◌, if◌then◌else◌, Option, none, some, List, [], is_empty,
}
use pitchfork.Text.{Text}
use pitchfork.DaemonId.{DaemonId}
use pitchfork.Config.{
  FilePath, MemoryLimit, CpuLimit, ReadyHttp, ReadyCmd, ReadyPort, ReadyOutput, StopConfig, Retry,
  WatchMode, native, CronRetrigger, PortConfig, Env,
}
use pitchfork.Daemon.{Daemon, DaemonStatus, stopped, RunOptions, or_else, unwrap_or, and_then}

pub record UpsertDaemonOpts : Type 0 where
  pub id : DaemonId
  pub pid : Option ℕ
  pub status : DaemonStatus
  pub shell_pid : Option ℕ
  pub dir : Option FilePath
  pub cmd : Option (List Text)
  pub run : Option Text
  pub autostop : Bool
  pub cron_schedule : Option Text
  pub cron_retrigger : Option CronRetrigger
  pub cron_immediate : Option Bool
  pub last_exit_success : Option Bool
  pub retry : Option Retry
  pub retry_count : Option ℕ
  pub ready_delay : Option ℕ
  pub ready_output : Option ReadyOutput
  pub ready_http : Option ReadyHttp
  pub ready_port : Option ReadyPort
  pub ready_cmd : Option ReadyCmd
  pub port : Option PortConfig
  pub resolved_port : List ℕ
  pub active_port : Option ℕ
  pub slug : Option Text
  pub proxy : Option Bool
  pub depends : Option (List DaemonId)
  pub env : Option Env
  pub watch : Option (List Text)
  pub watch_mode : Option WatchMode
  pub watch_base_dir : Option FilePath
  pub mise : Option Bool
  pub user : Option Text
  pub memory_limit : Option MemoryLimit
  pub cpu_limit : Option CpuLimit
  pub stop_signal : Option StopConfig
  pub archive_hook : Option Text
  pub log_format : Option Text
  pub pty : Option Bool
  pub config_registered : Bool

unfoldable pub builder : DaemonId → UpsertDaemonOpts
builder id = record {
  id = id;
  pid = none;
  status = stopped;
  shell_pid = none;
  dir = none;
  cmd = none;
  run = none;
  autostop = false;
  cron_schedule = none;
  cron_retrigger = none;
  cron_immediate = none;
  last_exit_success = none;
  retry = none;
  retry_count = none;
  ready_delay = none;
  ready_output = none;
  ready_http = none;
  ready_port = none;
  ready_cmd = none;
  port = none;
  resolved_port = [];
  active_port = none;
  slug = none;
  proxy = none;
  depends = none;
  env = none;
  watch = none;
  watch_mode = none;
  watch_base_dir = none;
  mise = none;
  user = none;
  memory_limit = none;
  cpu_limit = none;
  stop_signal = none;
  archive_hook = none;
  log_format = none;
  pty = none;
  config_registered = false;
}

unfoldable pub from_run_options : RunOptions → DaemonStatus → UpsertDaemonOpts
from_run_options opts status = record (builder opts.id) {
  status = status;
  shell_pid = opts.shell_pid;
  dir = some opts.dir;
  cmd = some opts.cmd;
  run = opts.run;
  autostop = opts.autostop;
  cron_schedule = opts.cron_schedule;
  cron_retrigger = opts.cron_retrigger;
  cron_immediate = opts.cron_immediate;
  retry = some opts.retry;
  retry_count = some opts.retry_count;
  ready_delay = opts.ready_delay;
  ready_output = opts.ready_output;
  ready_http = opts.ready_http;
  ready_port = opts.ready_port;
  ready_cmd = opts.ready_cmd;
  port = opts.port;
  depends = some opts.depends;
  env = opts.env;
  watch = some opts.watch;
  watch_mode = some opts.watch_mode;
  watch_base_dir = opts.watch_base_dir;
  mise = opts.mise;
  user = opts.user;
  memory_limit = opts.memory_limit;
  cpu_limit = opts.cpu_limit;
  stop_signal = opts.stop_signal;
  pty = opts.pty;
  archive_hook = opts.archive_hook;
  log_format = opts.log_format;
}

-- What src/procs.rs knows of a process, from the operating system.
pub record Procs : Type 0 where
  pub title : ℕ → Option Text
  pub start_time : ℕ → Option ℕ
  pub is_running : ℕ → Bool

-- The daemon that is known already, if it has the process `pid`.
abbrev pub same_process : ℕ → Option Daemon → Option Daemon
same_process pid existing =
    and_then existing
      (λ d. elim d.pid [ none ↦ none | some old ↦ (if old == pid then some d else none) ])

-- The title and the start time of a daemon: what the process cache has and, without it, what was
-- recorded for the same process.
abbrev pub recorded {ℓ} :
    {A : Type ℓ} → Option ℕ → (ℕ → Option A) → Option Daemon → (Daemon → Option A) → Option A
recorded pid cached existing field =
    and_then pid (λ p. or_else (cached p) (and_then (same_process p existing) field))

-- A part that is kept when it is not given.
abbrev pub inherit {ℓ} : {A : Type ℓ} → Option A → Option Daemon → (Daemon → Option A) → Option A
inherit given existing field = or_else given (and_then existing field)

abbrev pub inherit_or {ℓ} : {A : Type ℓ} → Option A → Option Daemon → (Daemon → A) → A → A
inherit_or given existing field default =
    unwrap_or given (unwrap_or (and_then existing (λ d. some (field d))) default)

-- The daemon that `upsert_daemon` puts in the place of the one that exists, if any.
unfoldable pub merge : Procs → UpsertDaemonOpts → Option Daemon → Daemon
merge procs opts existing = record {
  id = opts.id;
  title = recorded opts.pid procs.title existing (λ d. d.title);
  start_time = recorded opts.pid procs.start_time existing (λ d. d.start_time);
  pid = opts.pid;
  status = opts.status;
  shell_pid = opts.shell_pid;
  autostop = opts.autostop || unwrap_or (and_then existing (λ d. some d.autostop)) false;
  last_cron_triggered = and_then existing (λ d. d.last_cron_triggered);
  retry = inherit_or opts.retry existing (λ d. d.retry) (record { count = 0 });
  retry_count = inherit_or opts.retry_count existing (λ d. d.retry_count) 0;
  resolved_port =
      if is_empty opts.resolved_port
      then unwrap_or (and_then existing (λ d. some d.resolved_port)) []
      else opts.resolved_port;
  depends = inherit_or opts.depends existing (λ d. d.depends) [];
  watch = inherit_or opts.watch existing (λ d. d.watch) [];
  watch_mode = inherit_or opts.watch_mode existing (λ d. d.watch_mode) native;
  active_port = opts.active_port;
  config_registered = opts.config_registered;
  dir = inherit opts.dir existing (λ d. d.dir);
  cmd = inherit opts.cmd existing (λ d. d.cmd);
  run = inherit opts.run existing (λ d. d.run);
  cron_schedule = inherit opts.cron_schedule existing (λ d. d.cron_schedule);
  cron_retrigger = inherit opts.cron_retrigger existing (λ d. d.cron_retrigger);
  cron_immediate = inherit opts.cron_immediate existing (λ d. d.cron_immediate);
  last_exit_success = inherit opts.last_exit_success existing (λ d. d.last_exit_success);
  ready_delay = inherit opts.ready_delay existing (λ d. d.ready_delay);
  ready_output = inherit opts.ready_output existing (λ d. d.ready_output);
  ready_http = inherit opts.ready_http existing (λ d. d.ready_http);
  ready_port = inherit opts.ready_port existing (λ d. d.ready_port);
  ready_cmd = inherit opts.ready_cmd existing (λ d. d.ready_cmd);
  port = inherit opts.port existing (λ d. d.port);
  env = inherit opts.env existing (λ d. d.env);
  watch_base_dir = inherit opts.watch_base_dir existing (λ d. d.watch_base_dir);
  mise = inherit opts.mise existing (λ d. d.mise);
  user = inherit opts.user existing (λ d. d.user);
  proxy = inherit opts.proxy existing (λ d. d.proxy);
  slug = inherit opts.slug existing (λ d. d.slug);
  memory_limit = inherit opts.memory_limit existing (λ d. d.memory_limit);
  cpu_limit = inherit opts.cpu_limit existing (λ d. d.cpu_limit);
  stop_signal = inherit opts.stop_signal existing (λ d. d.stop_signal);
  archive_hook = inherit opts.archive_hook existing (λ d. d.archive_hook);
  log_format = inherit opts.log_format existing (λ d. d.log_format);
  pty = inherit opts.pty existing (λ d. d.pty);
}
