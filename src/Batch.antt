-- ===== src/Batch.antt =====
-- src/ipc/batch.rs: the options that a daemon is started with, and starting and stopping many at
-- once; and `to_run_options` of src/pitchfork_toml.rs. The registry of slugs, the user's directory and
-- the splitting of a command line are parameters.
pub mod Start
pub mod Stop
pub mod Overrides
mod Examples
use pitchfork.Prelude.{
  ℕ, Bool, true, false, ◌&&◌, ◌||◌, Option, none, some, List, [], ◌∷◌, if◌then◌else◌, is_empty, any,
  ◌==◌, Result, ok, err, ◌>>=◌,
}
use pitchfork.Text.{Text, codes, text_eq}
use pitchfork.DaemonId.{DaemonId}
use pitchfork.Config.{
  FilePath, ReadyHttp, ReadyCmd, ReadyOutput, ReadyPort, Retry, PortBump, PortConfig,
  PitchforkTomlAuto, start, stop, PitchforkTomlDaemon,
}
use pitchfork.Daemon.{RunOptions, and_then, or_else, unwrap_or}
use pitchfork.Paths.{parent, join, path_ends_with}

pub record SlugEntry : Type 0 where
  pub dir : Option FilePath
  pub namespace : Option Text
  pub daemon : Option Text

-- What is asked of the surroundings: the current directory, the two global configuration files, the
-- slugs with their namespaces as resolved, in the order of the registry, and `shell_words::split`.
pub record Surroundings : Type 0 where
  pub cwd : FilePath
  pub global_user : FilePath
  pub global_system : FilePath
  pub global_slugs : List (Text × SlugEntry)
  pub resolve_namespace : SlugEntry → Option Text
  pub split : Text → Option (List Text)

pub record StartOptions : Type 0 where
  pub force : Bool
  pub shell_pid : Option ℕ
  pub delay : Option ℕ
  pub output : Option Text
  pub http : Option Text
  pub port : Option ℕ
  pub cmd : Option Text
  pub expected_port : Option (List ℕ)
  pub auto_bump_port : Option PortBump
  pub retry : Option Retry
  pub quiet : Bool

unfoldable pub merge_ready_http_override : Option ReadyHttp → Option Text → Option ReadyHttp
merge_ready_http_override configured none = configured
merge_ready_http_override (some ready_http) (some url) = some (record ready_http { url = url })
merge_ready_http_override none (some url) = some (record { url = url; status = []; timeout = none })

unfoldable pub merge_ready_cmd_override : Option ReadyCmd → Option Text → Option ReadyCmd
merge_ready_cmd_override configured none = configured
merge_ready_cmd_override (some ready_cmd) (some cmd) = some (record ready_cmd { run = cmd })
merge_ready_cmd_override none (some cmd) = some (record { run = cmd; timeout = none })

unfoldable pub merge_ready_output_override : Option ReadyOutput → Option Text → Option ReadyOutput
merge_ready_output_override configured none = configured
merge_ready_output_override (some ready_output) (some pattern) =
    some (record ready_output { pattern = pattern })
merge_ready_output_override none (some pattern) =
    some (record { pattern = pattern; timeout = none })

abbrev pub override_port : Option ReadyPort → Option ℕ → Option ReadyPort
override_port configured none = configured
override_port configured (some port) =
    some
      (record { port = some port; template = none; timeout = and_then configured (λ p. p.timeout) })

-- `get_or_insert_with(Default::default)`
abbrev pub or_default : Option PortConfig → PortConfig
or_default none = record { expect = []; bump = record { attempts = 0 } }
or_default (some p) = p

abbrev pub override_expected : Option (List ℕ) → Option PortConfig → Option PortConfig
override_expected none port = port
override_expected (some expected) port = some (record (or_default port) { expect = expected })

abbrev pub override_bump : Option PortBump → Option PortConfig → Option PortConfig
override_bump none port = port
override_bump (some bump) port = some (record (or_default port) { bump = bump })

-- `PortConfig::from_parts`
unfoldable pub from_parts : List ℕ → PortBump → Option PortConfig
from_parts expect bump =
    if is_empty expect && bump.attempts == 0
    then none
    else some (record { expect = expect; bump = bump })

unfoldable pub override : StartOptions → RunOptions → RunOptions
unfolding merge_ready_http_override merge_ready_cmd_override merge_ready_output_override
override opts o = record o {
  shell_pid = opts.shell_pid;
  force = opts.force;
  ready_delay = or_else opts.delay o.ready_delay;
  ready_output = merge_ready_output_override o.ready_output opts.output;
  ready_http = merge_ready_http_override o.ready_http opts.http;
  ready_port = override_port o.ready_port opts.port;
  ready_cmd = merge_ready_cmd_override o.ready_cmd opts.cmd;
  port = override_bump opts.auto_bump_port (override_expected opts.expected_port o.port);
}

abbrev pub is_stop : PitchforkTomlAuto → Bool
is_stop start = false
is_stop stop = true

pub data ReadyCheckType : Type 0 where
  check_output check_http check_cmd : (text : Text) → ReadyCheckType
  check_port : (port : ℕ) → ReadyCheckType
  check_delay : (secs : ℕ) → ReadyCheckType
  check_default : ReadyCheckType

unfoldable pub ready_check_type : RunOptions → ReadyCheckType
ready_check_type o = elim o.ready_output [
  | some out ↦ check_output out.pattern
  | none ↦ elim o.ready_http [
    | some http ↦ check_http http.url
    | none ↦ elim (and_then o.ready_port (λ p. p.port)) [
      | some port ↦ check_port port
      | none ↦ elim o.ready_cmd [
        | some cmd ↦ check_cmd cmd.run
        | none ↦ elim o.ready_delay [ some secs ↦ check_delay secs | none ↦ check_default ]
      ]
    ]
  ]
]

module _ (w : Surroundings) where
  abbrev pub is_global_config : FilePath → Bool
  is_global_config path = text_eq path w.global_user || text_eq path w.global_system

  abbrev pub is_dot_config_pitchfork : FilePath → Bool
  is_dot_config_pitchfork path =
      path_ends_with path (codes ".config/pitchfork.toml")
      || path_ends_with path (codes ".config/pitchfork.local.toml")

  unfoldable pub resolve_config_base_dir : Option FilePath → FilePath
  resolve_config_base_dir config_path =
      unwrap_or
        (and_then config_path (λ p.
          if is_global_config p
          then parent p
          else (if is_dot_config_pitchfork p then and_then (parent p) parent else parent p)))
        w.cwd

  unfoldable pub resolve_daemon_dir : Option FilePath → Option FilePath → FilePath
  unfolding resolve_config_base_dir
  resolve_daemon_dir none config_path = resolve_config_base_dir config_path
  resolve_daemon_dir (some d) config_path = join (resolve_config_base_dir config_path) d

  abbrev pub is_in_namespace : DaemonId → Option Text → Bool
  is_in_namespace id none = false
  is_in_namespace id (some namespace) = text_eq namespace id.namespace

  -- The first slug that is registered for the daemon.
  unfoldable pub find_slug : DaemonId → List (Text × SlugEntry) → Option Text
  find_slug id [] = none
  find_slug id ((slug, entry) ∷ slugs) =
      let rest = find_slug id slugs in
      if text_eq (unwrap_or entry.daemon slug) id.name
        && is_in_namespace id (w.resolve_namespace entry)
      then some slug
      else rest

  unfoldable pub to_run_options : DaemonId → List Text → PitchforkTomlDaemon → RunOptions
  unfolding resolve_config_base_dir resolve_daemon_dir find_slug
  to_run_options id cmd d = record {
    id = id;
    cmd = cmd;
    run = some d.run;
    force = false;
    shell_pid = none;
    dir = resolve_daemon_dir d.dir d.path;
    autostop = any is_stop d.auto;
    cron_schedule = and_then d.cron (λ c. some c.schedule);
    cron_retrigger = and_then d.cron (λ c. some c.retrigger);
    cron_immediate = and_then d.cron (λ c. some c.immediate);
    retry = d.retry;
    retry_count = 0;
    ready_delay = d.ready_delay;
    ready_output = d.ready_output;
    ready_http = d.ready_http;
    ready_port = d.ready_port;
    ready_cmd = d.ready_cmd;
    port = d.port;
    wait_ready = false;
    depends = d.depends;
    env = d.env;
    watch = d.watch;
    watch_mode = d.watch_mode;
    watch_base_dir = some (resolve_config_base_dir d.path);
    mise = d.mise;
    slug = find_slug id w.global_slugs;
    proxy = none;
    user = d.user;
    memory_limit = d.memory_limit;
    cpu_limit = d.cpu_limit;
    stop_signal = d.stop_signal;
    archive_hook = or_else (and_then d.logs (λ l. l.archive_hook)) d.archive_hook;
    log_format = and_then d.logs (λ l. l.log_format);
    on_output_hook = and_then d.hooks (λ h. h.on_output);
    pty = d.pty;
  }

  -- The only failure is a command line that cannot be split.
  unfoldable pub build_run_options :
      DaemonId → PitchforkTomlDaemon → Option StartOptions → Option RunOptions
  unfolding to_run_options override
  build_run_options id d overrides = elim (w.split d.run) [
    | none ↦ none
    | some cmd ↦
        let o = to_run_options id cmd d in
        let o' : RunOptions = record o {
          wait_ready = true;
          ready_delay = or_else o.ready_delay (some 3);
        } in
        elim overrides [ none ↦ some o' | some opts ↦ some (override opts o') ]
  ]
