-- ===== src/Daemon.antt =====
-- src/daemon.rs: a daemon as the supervisor keeps it, and the options that it is run with; and
-- src/daemon_status.rs. An instant and a process identifier are numbers.
pub mod Options
use pitchfork.Prelude.{
  ℕ, Bool, true, false, Option, none, some, List, [], ◌∷◌, ◌>>=◌, ℤ, pos, negsuc,
}
use pitchfork.Text.{Text, codes}
use pitchfork.DaemonId.{DaemonId}
use pitchfork.Config.{
  FilePath, MemoryLimit, CpuLimit, ReadyHttp, ReadyCmd, ReadyPort, ReadyOutput, StopConfig, Retry,
  WatchMode, CronRetrigger, OnOutputHook, PortConfig, Env, PitchforkTomlDaemon, Daemons,
}
use pitchfork.Map.{get, id_key}

pub data DaemonStatus : Type 0 where
  failed : (message : Text) → DaemonStatus
  waiting running stopping : DaemonStatus
  errored : (code : ℤ) → DaemonStatus
  stopped : DaemonStatus

pub record Daemon : Type 0 where
  pub id : DaemonId
  pub title : Option Text
  pub pid : Option ℕ
  pub start_time : Option ℕ
  pub shell_pid : Option ℕ
  pub status : DaemonStatus
  pub dir : Option FilePath
  pub cmd : Option (List Text)
  pub run : Option Text
  pub autostop : Bool
  pub cron_schedule : Option Text
  pub cron_retrigger : Option CronRetrigger
  pub cron_immediate : Option Bool
  pub last_cron_triggered : Option ℕ
  pub last_exit_success : Option Bool
  pub retry : Retry
  pub retry_count : ℕ
  pub ready_delay : Option ℕ
  pub ready_output : Option ReadyOutput
  pub ready_http : Option ReadyHttp
  pub ready_port : Option ReadyPort
  pub ready_cmd : Option ReadyCmd
  pub port : Option PortConfig
  pub resolved_port : List ℕ
  pub active_port : Option ℕ
  pub slug : Option Text
  pub proxy : Option Bool
  pub depends : List DaemonId
  pub env : Option Env
  pub watch : List Text
  pub watch_mode : WatchMode
  pub watch_base_dir : Option FilePath
  pub mise : Option Bool
  pub user : Option Text
  pub memory_limit : Option MemoryLimit
  pub cpu_limit : Option CpuLimit
  pub stop_signal : Option StopConfig
  pub archive_hook : Option Text
  pub log_format : Option Text
  pub pty : Option Bool
  pub config_registered : Bool

pub record RunOptions : Type 0 where
  pub id : DaemonId
  pub cmd : List Text
  pub run : Option Text
  pub force : Bool
  pub shell_pid : Option ℕ
  pub dir : FilePath
  pub autostop : Bool
  pub cron_schedule : Option Text
  pub cron_retrigger : Option CronRetrigger
  pub cron_immediate : Option Bool
  pub retry : Retry
  pub retry_count : ℕ
  pub ready_delay : Option ℕ
  pub ready_output : Option ReadyOutput
  pub ready_http : Option ReadyHttp
  pub ready_port : Option ReadyPort
  pub ready_cmd : Option ReadyCmd
  pub port : Option PortConfig
  pub wait_ready : Bool
  pub depends : List DaemonId
  pub env : Option Env
  pub watch : List Text
  pub watch_mode : WatchMode
  pub watch_base_dir : Option FilePath
  pub mise : Option Bool
  pub slug : Option Text
  pub proxy : Option Bool
  pub user : Option Text
  pub memory_limit : Option MemoryLimit
  pub cpu_limit : Option CpuLimit
  pub stop_signal : Option StopConfig
  pub archive_hook : Option Text
  pub log_format : Option Text
  pub on_output_hook : Option OnOutputHook
  pub pty : Option Bool

-- The configurations that can be read when the daemon is restarted; `none` where reading one fails.
pub record Configs : Type 0 where
  pub all_merged_from : FilePath → Option Daemons
  pub all_merged_all_namespaces : Option Daemons

-- `or`, `unwrap_or`: the first that is there.
abbrev pub or_else {ℓ} : {A : Type ℓ} → Option A → Option A → Option A
or_else (some a) other = some a
or_else none other = other

abbrev pub unwrap_or {ℓ} : {A : Type ℓ} → Option A → A → A
unwrap_or (some a) other = a
unwrap_or none other = other

abbrev pub and_then {ℓ κ} : {A : Type ℓ} {B : Type κ} → Option A → (A → Option B) → Option B
and_then (some a) f = f a
and_then none f = none

-- The hook that the configuration of today has for the daemon.
unfoldable pub current_hook : Configs → Daemon → Option OnOutputHook
current_hook configs d =
    and_then (or_else (and_then d.dir configs.all_merged_from) configs.all_merged_all_namespaces)
      (λ pt. and_then (get d.id pt) (λ daemon. and_then daemon.hooks (λ h. h.on_output)))

unfoldable pub to_run_options : Configs → (cwd : FilePath) → Daemon → List Text → RunOptions
to_run_options configs cwd d cmd = record {
  id = d.id;
  cmd = cmd;
  run = d.run;
  force = false;
  shell_pid = d.shell_pid;
  dir = unwrap_or d.dir cwd;
  autostop = d.autostop;
  cron_schedule = d.cron_schedule;
  cron_retrigger = d.cron_retrigger;
  cron_immediate = d.cron_immediate;
  retry = d.retry;
  retry_count = d.retry_count;
  ready_delay = d.ready_delay;
  ready_output = d.ready_output;
  ready_http = d.ready_http;
  ready_port = d.ready_port;
  ready_cmd = d.ready_cmd;
  port = d.port;
  wait_ready = false;
  depends = d.depends;
  env = d.env;
  watch = d.watch;
  watch_mode = d.watch_mode;
  watch_base_dir = d.watch_base_dir;
  mise = d.mise;
  slug = d.slug;
  proxy = d.proxy;
  user = d.user;
  memory_limit = d.memory_limit;
  cpu_limit = d.cpu_limit;
  stop_signal = d.stop_signal;
  archive_hook = d.archive_hook;
  log_format = d.log_format;
  on_output_hook = current_hook configs d;
  pty = d.pty;
}
