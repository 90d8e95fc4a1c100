-- ===== src/Toml.antt =====
-- src/pitchfork_toml.rs: configuration files. The files themselves, the TOML library and the settings,
-- which are generated, are parameters; a configuration is a map from names, an `IndexMap`, whose
-- entries stand in the order in which their keys were first inserted.
pub mod Namespaces
pub mod Parse
pub mod Merge
pub mod Resolve
pub mod Commands
pub mod Elsewhere
pub mod Qualified
pub mod Collisions
pub mod Groups
pub mod Examples
use pitchfork.Prelude.{ℕ, Bool, Option, none, some, List, [], ◌∷◌, Result, if◌then◌else◌, ℤ}
use pitchfork.Text.{Text, text_eq}
use pitchfork.DaemonId.{DaemonId, DaemonIdError, id_eq}
use pitchfork.Config.{
  FilePath, MemoryLimit, CpuLimit, ReadyHttp, ReadyCmd, ReadyOutput, ReadyPort, StopConfig, Retry,
  PortConfig, WatchMode, PitchforkTomlAuto, PitchforkTomlCron, PitchforkTomlHooks,
  PitchforkTomlDaemonLogs, PitchforkTomlDaemon, Env, Daemons,
}
use pitchfork.Batch.{SlugEntry}

module _ {K V : Type 0} (eq : K → K → Bool) where
  -- `IndexMap::insert`: a key that is there keeps its position.
  unfoldable pub put : K → V → List (K × V) → List (K × V)
  put x v [] = (x, v) ∷ []
  put x v ((y, u) ∷ m) = let rest = put x v m in if eq y x then (y, v) ∷ m else (y, u) ∷ rest

  unfoldable pub put_all : List (K × V) → List (K × V) → List (K × V)
  unfolding put
  put_all [] m = m
  put_all ((x, v) ∷ entries) m = put_all entries (put x v m)

  unfoldable pub lookup : K → List (K × V) → Option V
  lookup x [] = none
  lookup x ((y, v) ∷ m) = let rest = lookup x m in if eq y x then some v else rest

abbrev pub Names : Type 0 → Type 0
Names V = List (Text × V)

-- Why a namespace is refused.
pub data NamespaceReason : Type 0 where
  not_a_string must_be_global : NamespaceReason
  invalid derived : (e : DaemonIdError) → NamespaceReason
  differs_from_base : (base : Text) → NamespaceReason

-- `ConfigParseError`, and the errors of reading a file.
pub data ConfigParseError : Type 0 where
  toml_error read_error lock_error no_namespace : (path : FilePath) → ConfigParseError
  invalid_daemon_name : (name : Text) (path : FilePath) (e : DaemonIdError) → ConfigParseError
  invalid_dependency :
      (daemon dependency : Text) (path : FilePath) (e : DaemonIdError) → ConfigParseError
  namespace_collision : (path_a path_b : FilePath) (ns : Text) → ConfigParseError
  invalid_namespace :
      (path : FilePath) (namespace : Text) (reason : NamespaceReason) → ConfigParseError

pub record PitchforkTomlDaemonRaw : Type 0 where
  pub run : Text
  pub auto : List PitchforkTomlAuto
  pub cron : Option PitchforkTomlCron
  pub retry : Retry
  pub ready_delay : Option ℕ
  pub ready_output : Option ReadyOutput
  pub ready_http : Option ReadyHttp
  pub ready_port : Option ReadyPort
  pub ready_cmd : Option ReadyCmd
  pub port : Option PortConfig
  pub expected_port : List ℕ
  pub auto_bump_port : Option Bool
  pub port_bump_attempts : Option ℕ
  pub boot_start : Option Bool
  pub depends : List Text
  pub watch : List Text
  pub watch_mode : Option WatchMode
  pub dir : Option Text
  pub env : Option Env
  pub hooks : Option PitchforkTomlHooks
  pub mise : Option Bool
  pub user : Option Text
  pub memory_limit : Option MemoryLimit
  pub cpu_limit : Option CpuLimit
  pub stop_signal : Option StopConfig
  pub pty : Option Bool
  pub time_retention : Option Text
  pub line_retention : Option ℤ
  pub archive_hook : Option Text
  pub logs : Option PitchforkTomlDaemonLogs

pub record GroupEntryRaw : Type 0 where
  pub daemons : List Text

pub record GroupEntry : Type 0 where
  pub daemons : List DaemonId

pub record NamespaceEntry : Type 0 where
  pub dir : FilePath

module _ (S : Type 0) where
  pub record PitchforkTomlRaw : Type 0 where
    pub namespace : Option Text
    pub daemons : Names PitchforkTomlDaemonRaw
    pub env : Option Env
    pub settings : Option S
    pub slugs : Names SlugEntry
    pub groups : Names GroupEntryRaw
    pub namespaces : Names NamespaceEntry

  pub record PitchforkToml : Type 0 where
    pub daemons : Daemons
    pub env : Option Env
    pub namespace : Option Text
    pub settings : S
    pub slugs : Names SlugEntry
    pub groups : Names GroupEntry
    pub namespaces : Names NamespaceEntry
    pub path : Option FilePath

  -- The top-level value of the key `namespace` in a document.
  pub data NamespaceValue : Type 0 where
    string other : (s : Text) → NamespaceValue

  -- The files, the TOML library, and the settings.
  pub record Files : Type 0 where
    pub exists : FilePath → Bool
    pub lock : FilePath → Bool
    pub read_to_string : FilePath → Option Text
    pub canonicalize : FilePath → Option FilePath
    pub find_up_all : FilePath → List Text → List FilePath
    pub from_str : Text → Option PitchforkTomlRaw
    pub namespace_value : Text → Option (Option NamespaceValue)
    pub default_settings : S
    pub merge_from : S → S → S
    pub default_port_bump_attempts : ℕ
