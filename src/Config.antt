-- ===== src/Config.antt =====
-- src/config_types.rs and src/pitchfork_toml.rs: the values of a configuration, as the rest of the
-- program holds them. A `Duration` is its nanoseconds, a path and a string are texts, and the
-- `f32` of a `CpuLimit` is its bit pattern.
use pitchfork.Prelude.{ℕ, Bool, Option, none, List, [], ℤ}
use pitchfork.Text.{Text}
use pitchfork.DaemonId.{DaemonId}

abbrev pub FilePath : Type 0
FilePath = Text

abbrev pub Duration : Type 0
Duration = ℕ

pub record MemoryLimit : Type 0 where
  pub bytes : ℕ

pub record CpuLimit : Type 0 where
  pub bits : ℕ

pub record ReadyHttp : Type 0 where
  pub url : Text
  pub status : List ℕ
  pub timeout : Option Duration

pub record ReadyCmd : Type 0 where
  pub run : Text
  pub timeout : Option Duration

pub record ReadyPort : Type 0 where
  pub port : Option ℕ
  pub template : Option Text
  pub timeout : Option Duration

pub record ReadyOutput : Type 0 where
  pub pattern : Text
  pub timeout : Option Duration

pub record StopSignal : Type 0 where
  pub number : ℕ

pub record StopConfig : Type 0 where
  pub signal : StopSignal
  pub timeout : Option Duration

pub record Retry : Type 0 where
  pub count : ℕ

pub data WatchMode : Type 0 where
  native poll auto : WatchMode

pub data CronRetrigger : Type 0 where
  finish always success fail : CronRetrigger

pub record PitchforkTomlCron : Type 0 where
  pub schedule : Text
  pub retrigger : CronRetrigger
  pub immediate : Bool

pub data PitchforkTomlAuto : Type 0 where
  start stop : PitchforkTomlAuto

pub record OnOutputHook : Type 0 where
  pub run : Text
  pub filter : Option Text
  pub regex : Option Text
  pub debounce : Option Text

pub record PitchforkTomlHooks : Type 0 where
  pub on_ready : Option Text
  pub on_fail : Option Text
  pub on_retry : Option Text
  pub on_stop : Option Text
  pub on_exit : Option Text
  pub on_output : Option OnOutputHook

pub record PortBump : Type 0 where
  pub attempts : ℕ

pub record PortConfig : Type 0 where
  pub expect : List ℕ
  pub bump : PortBump

pub record PitchforkTomlDaemonLogs : Type 0 where
  pub time_retention : Option Text
  pub line_retention : Option ℤ
  pub archive_hook : Option Text
  pub log_format : Option Text

abbrev pub Env : Type 0
Env = List (Text × Text)

pub record PitchforkTomlDaemon : Type 0 where
  pub run : Text
  pub auto : List PitchforkTomlAuto
  pub cron : Option PitchforkTomlCron
  pub retry : Retry
  pub ready_delay : Option ℕ
  pub ready_output : Option ReadyOutput
  pub ready_http : Option ReadyHttp
  pub ready_port : Option ReadyPort
  pub ready_cmd : Option ReadyCmd
  pub port : Option PortConfig
  pub boot_start : Option Bool
  pub depends : List DaemonId
  pub watch : List Text
  pub watch_mode : WatchMode
  pub dir : Option Text
  pub env : Option Env
  pub hooks : Option PitchforkTomlHooks
  pub mise : Option Bool
  pub user : Option Text
  pub memory_limit : Option MemoryLimit
  pub cpu_limit : Option CpuLimit
  pub stop_signal : Option StopConfig
  pub pty : Option Bool
  pub time_retention : Option Text
  pub line_retention : Option ℤ
  pub archive_hook : Option Text
  pub logs : Option PitchforkTomlDaemonLogs
  pub path : Option FilePath

-- The derived `Default`.
abbrev pub default_daemon : PitchforkTomlDaemon
default_daemon = record {
  run = [];
  auto = [];
  cron = none;
  retry = record { count = 0 };
  ready_delay = none;
  ready_output = none;
  ready_http = none;
  ready_port = none;
  ready_cmd = none;
  port = none;
  boot_start = none;
  depends = [];
  watch = [];
  watch_mode = native;
  dir = none;
  env = none;
  hooks = none;
  mise = none;
  user = none;
  memory_limit = none;
  cpu_limit = none;
  stop_signal = none;
  pty = none;
  time_retention = none;
  line_retention = none;
  archive_hook = none;
  logs = none;
  path = none;
}

-- The daemons of a configuration, an `IndexMap`: its entries in the order of insertion.
abbrev pub Daemons : Type 0
Daemons = List (DaemonId × PitchforkTomlDaemon)
