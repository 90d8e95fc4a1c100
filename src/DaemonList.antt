-- ===== src/DaemonList.antt =====
-- src/daemon_list.rs: the daemons of the state file and those that are only configured, in one list.
pub mod Direct
mod Examples
use pitchfork.Prelude.{
  Bool, true, false, ◌||◌, Option, none, some, List, [], ◌∷◌, ◌++◌, Result, ok, err, if◌then◌else◌,
  ◌>>=◌,
}
use pitchfork.DaemonId.{DaemonId, id_eq, pitchfork_id}
use pitchfork.Config.{native, PitchforkTomlDaemon, Daemons}
use pitchfork.Daemon.{Daemon, stopped}
use pitchfork.Deps
use pitchfork.Map
use pitchfork.Map.{Map, id_key, is_some, values}
use pitchfork.State.{StateFile}
use pitchfork.Batch.{Surroundings}
use pitchfork.Toml.{Names, ConfigParseError, NamespaceEntry, PitchforkToml, Files}
use pitchfork.Toml.Merge.{all_merged_from}

pub record DaemonListEntry : Type 0 where
  pub id : DaemonId
  pub daemon : Daemon
  pub is_disabled : Bool
  pub is_available : Bool

-- What is left of `Daemon::default` in a placeholder, and what is taken from the configuration.
unfoldable pub build_placeholder_daemon : DaemonId → PitchforkTomlDaemon → Daemon
build_placeholder_daemon id config = record {
  id = id;
  title = none;
  pid = none;
  start_time = none;
  shell_pid = none;
  status = stopped;
  dir = none;
  cmd = none;
  run = none;
  autostop = false;
  cron_schedule = none;
  cron_retrigger = none;
  cron_immediate = none;
  last_cron_triggered = none;
  last_exit_success = none;
  retry = record { count = 0 };
  retry_count = 0;
  ready_delay = none;
  ready_output = none;
  ready_http = none;
  ready_port = none;
  ready_cmd = none;
  port = config.port;
  resolved_port = [];
  active_port = none;
  slug = none;
  proxy = none;
  depends = [];
  env = none;
  watch = [];
  watch_mode = config.watch_mode;
  watch_base_dir = none;
  mise = config.mise;
  user = config.user;
  memory_limit = config.memory_limit;
  cpu_limit = config.cpu_limit;
  stop_signal = none;
  archive_hook = none;
  log_format = none;
  pty = none;
  config_registered = false;
}

unfoldable pub find_entry : DaemonId → List DaemonListEntry → Option DaemonListEntry
find_entry id [] = none
find_entry id (e ∷ es) = if id_eq e.id id then some e else find_entry id es

-- `seen_ids.contains`: the identifiers seen are those of the entries.
abbrev pub seen : DaemonId → List DaemonListEntry → Bool
seen id entries = is_some (find_entry id entries)

abbrev pub Disabled : Type 0
Disabled = Map DaemonId (Unit {0})

module _ (disabled : Disabled) where
  abbrev pub is_in : DaemonId → Bool
  is_in id = is_some (Map.get id disabled)

  -- A daemon of the state, under its key there.
  abbrev pub tracked : DaemonId → Daemon → DaemonListEntry
  tracked id d = record {
    id = id;
    daemon = d;
    is_disabled = is_in id;
    is_available = d.config_registered;
  }

  abbrev pub available : DaemonId → PitchforkTomlDaemon → DaemonListEntry
  available id config = record {
    id = id;
    daemon = build_placeholder_daemon id config;
    is_disabled = is_in id;
    is_available = true;
  }

  unfoldable pub state_entries : List Daemon → List DaemonListEntry
  state_entries [] = []
  state_entries (d ∷ ds) =
      let rest = state_entries ds in if id_eq d.id pitchfork_id then rest else tracked d.id d ∷ rest

  -- The daemons that are not seen yet.
  unfoldable pub add_available : Daemons → List DaemonListEntry → List DaemonListEntry
  unfolding find_entry build_placeholder_daemon
  add_available [] entries = entries
  add_available ((id, config) ∷ more) entries = add_available more (
      if id_eq id pitchfork_id || seen id entries
      then entries
      else entries ++ available id config ∷ [])

module _ {S : Type 0} (w : Surroundings) (f : Files S) (registry : Names NamespaceEntry) where
  abbrev pub daemons_of : NamespaceEntry → Daemons
  daemons_of entry = elim (all_merged_from w f entry.dir) [
    | err e ↦ []
    | ok ns_config ↦ ns_config.daemons
  ]

  unfoldable pub add_registered :
      Disabled → Names NamespaceEntry → List DaemonListEntry → List DaemonListEntry
  unfolding add_available
  add_registered disabled [] entries = entries
  add_registered disabled ((name, entry) ∷ namespaces) entries =
      add_registered disabled namespaces (add_available disabled (daemons_of entry) entries)

  unfoldable pub build_daemon_list :
      (state_daemons : List Daemon) → Disabled → PitchforkToml S → List DaemonListEntry
  unfolding state_entries add_available add_registered
  build_daemon_list state_daemons disabled config =
      add_registered disabled registry
        (add_available disabled config.daemons (state_entries disabled state_daemons))

  unfoldable pub get_all_daemons_direct : StateFile → Result ConfigParseError (List DaemonListEntry)
  unfolding build_daemon_list
  get_all_daemons_direct s = all_merged_from w f w.cwd >>= λ config.
      ok (build_daemon_list (values s.daemons) s.disabled config)

  -- The first registered namespace that has the daemon.
  unfoldable pub find_registered :
      Disabled → Names NamespaceEntry → DaemonId → Option DaemonListEntry
  find_registered disabled [] id = none
  find_registered disabled ((name, entry) ∷ namespaces) id = elim (Deps.get id (daemons_of entry)) [
    | some config ↦ some (available disabled id config)
    | none ↦ find_registered disabled namespaces id
  ]

  unfoldable pub find_configured : Disabled → Daemons → DaemonId → Option DaemonListEntry
  unfolding find_registered
  find_configured disabled daemons id = elim (Deps.get id daemons) [
    | some config ↦ some (available disabled id config)
    | none ↦ find_registered disabled registry id
  ]

  unfoldable pub get_daemon_direct :
      StateFile → DaemonId → Result ConfigParseError (Option DaemonListEntry)
  unfolding find_configured
  get_daemon_direct s id = if id_eq id pitchfork_id then ok none else elim (Map.get id s.daemons) [
    | some d ↦ ok (some (tracked s.disabled id d))
    | none ↦
        (all_merged_from w f w.cwd >>= λ config. ok (find_configured s.disabled config.daemons id))
  ]
