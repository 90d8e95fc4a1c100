-- ===== src/Toml/Parse.antt =====
-- `parse_str`, `read` and `merge` of src/pitchfork_toml.rs.
use pitchfork.Prelude.{
  ℕ, Bool, false, not, ◌||◌, Option, none, some, List, [], ◌∷◌, Result, ok, err, if◌then◌else◌,
  ◌>>=◌, ◌>>◌, is_empty,
}
use pitchfork.Text.{Text, text_eq, contains_char}
use pitchfork.DaemonId.{DaemonId, DaemonIdError, try_new, parse, slash, id_eq}
use pitchfork.Daemon.{or_else, unwrap_or}
use pitchfork.Map.{is_some}
use pitchfork.Config.{FilePath, PortConfig, native, PitchforkTomlDaemon, Daemons}
use pitchfork.Batch.{Surroundings}
use pitchfork.Toml.{
  Names, put, put_all, ConfigParseError, toml_error, read_error, lock_error, invalid_daemon_name,
  invalid_dependency, PitchforkTomlDaemonRaw, GroupEntryRaw, GroupEntry, PitchforkTomlRaw,
  PitchforkToml, Files,
}
use pitchfork.Toml.Namespaces.{
  is_local_config, agree, base_explicit, namespace_from_path_with_override,
}

-- A name of the same namespace, or a qualified one.
unfoldable pub qualify : (namespace dep : Text) → Result DaemonIdError DaemonId
qualify namespace dep = if contains_char dep slash then parse dep else try_new namespace dep

unfoldable pub parse_depends :
    FilePath → (namespace short_name : Text) → List Text → Result ConfigParseError (List DaemonId)
unfolding qualify
parse_depends path namespace short_name [] = ok []
parse_depends path namespace short_name (dep ∷ deps) =
    let rest = parse_depends path namespace short_name deps in
    elim (qualify namespace dep) [
      | err e ↦ err (invalid_dependency short_name dep path e)
      | ok id ↦ (rest >>= λ ids. ok (id ∷ ids))
    ]

abbrev pub has_deprecated : PitchforkTomlDaemonRaw → Bool
has_deprecated raw =
    not (is_empty raw.expected_port) || is_some raw.auto_bump_port || is_some raw.port_bump_attempts

-- The ports of a daemon, of the field `port` or of the deprecated ones.
unfoldable pub port_of : (default_attempts : ℕ) → PitchforkTomlDaemonRaw → Option PortConfig
port_of default_attempts raw = elim raw.port [
  | some port ↦ some port
  | none ↦
      (if has_deprecated raw
        then some (record {
          expect = raw.expected_port;
          bump = record {
            attempts =
                if unwrap_or raw.auto_bump_port false
                then unwrap_or raw.port_bump_attempts default_attempts
                else 0;
          };
        })
        else none)
]

unfoldable pub daemon_of :
    (default_attempts : ℕ) → FilePath → List DaemonId → PitchforkTomlDaemonRaw → PitchforkTomlDaemon
unfolding port_of
daemon_of default_attempts path depends raw = record {
  run = raw.run;
  auto = raw.auto;
  cron = raw.cron;
  retry = raw.retry;
  ready_delay = raw.ready_delay;
  ready_output = raw.ready_output;
  ready_http = raw.ready_http;
  ready_port = raw.ready_port;
  ready_cmd = raw.ready_cmd;
  port = port_of default_attempts raw;
  boot_start = raw.boot_start;
  depends = depends;
  watch = raw.watch;
  watch_mode = unwrap_or raw.watch_mode native;
  dir = raw.dir;
  env = raw.env;
  hooks = raw.hooks;
  mise = raw.mise;
  user = raw.user;
  memory_limit = raw.memory_limit;
  cpu_limit = raw.cpu_limit;
  stop_signal = raw.stop_signal;
  pty = raw.pty;
  time_retention = raw.time_retention;
  line_retention = raw.line_retention;
  archive_hook = raw.archive_hook;
  logs = raw.logs;
  path = some path;
}

unfoldable pub parse_daemon :
    (default_attempts : ℕ)
    → FilePath
    → (namespace short_name : Text) → PitchforkTomlDaemonRaw
    → Result ConfigParseError (DaemonId × PitchforkTomlDaemon)
unfolding parse_depends daemon_of
parse_daemon default_attempts path namespace short_name raw = elim (try_new namespace short_name) [
  | err e ↦ err (invalid_daemon_name short_name path e)
  | ok id ↦
      (parse_depends path namespace short_name raw.depends >>= λ depends.
      ok (id, daemon_of default_attempts path depends raw))
]

unfoldable pub parse_daemons :
    (default_attempts : ℕ)
    → FilePath
    → (namespace : Text) → Names PitchforkTomlDaemonRaw
    → Daemons
    → Result ConfigParseError Daemons
unfolding parse_daemon
parse_daemons default_attempts path namespace [] daemons = ok daemons
parse_daemons default_attempts path namespace ((short_name, raw) ∷ raws) daemons =
    parse_daemon default_attempts path namespace short_name raw >>= λ (id, d).
    parse_daemons default_attempts path namespace raws (put id_eq id d daemons)

unfoldable pub group_member :
    FilePath → (namespace group_name daemon_name : Text) → Result ConfigParseError DaemonId
group_member path namespace group_name daemon_name =
    if contains_char daemon_name slash
    then elim (parse daemon_name) [
      | err e ↦ err (invalid_dependency group_name daemon_name path e)
      | ok id ↦ ok id
    ]
    else elim (try_new namespace daemon_name) [
      | err e ↦ err (invalid_daemon_name daemon_name path e)
      | ok id ↦ ok id
    ]

unfoldable pub group_members :
    FilePath → (namespace group_name : Text) → List Text → Result ConfigParseError (List DaemonId)
unfolding group_member
group_members path namespace group_name [] = ok []
group_members path namespace group_name (name ∷ names) =
    let rest = group_members path namespace group_name names in
    group_member path namespace group_name name >>= λ id. rest >>= λ ids. ok (id ∷ ids)

unfoldable pub parse_groups :
    FilePath
    → (namespace : Text) → Names GroupEntryRaw
    → Names GroupEntry
    → Result ConfigParseError (Names GroupEntry)
unfolding group_members
parse_groups path namespace [] groups = ok groups
parse_groups path namespace ((name, raw) ∷ raws) groups =
    group_members path namespace name raw.daemons >>= λ ids.
    parse_groups path namespace raws (put text_eq name (record { daemons = ids }) groups)

module _ {S : Type 0} (w : Surroundings) (f : Files S) where
  -- `new`; and `default`, with no path.
  abbrev pub new : Option FilePath → PitchforkToml S
  new path = record {
    daemons = [];
    env = none;
    namespace = none;
    settings = f.default_settings;
    slugs = [];
    groups = [];
    namespaces = [];
    path = path;
  }

  unfoldable pub effective_namespace : FilePath → PitchforkTomlRaw S → Result ConfigParseError Text
  unfolding base_explicit agree namespace_from_path_with_override
  effective_namespace path raw = do
    base ← base_explicit w f path
    (if is_local_config path then agree path raw.namespace base else ok tt)
    namespace_from_path_with_override w path (or_else raw.namespace base)

  unfoldable pub convert : FilePath → PitchforkTomlRaw S → Result ConfigParseError (PitchforkToml S)
  unfolding effective_namespace parse_daemons parse_groups put_all
  convert path raw = do
    namespace ← effective_namespace path raw
    daemons ← parse_daemons f.default_port_bump_attempts path namespace raw.daemons []
    groups ← parse_groups path namespace raw.groups []
    ok (record {
      daemons = daemons;
      env = raw.env;
      namespace = raw.namespace;
      settings = unwrap_or raw.settings f.default_settings;
      slugs = put_all text_eq raw.slugs [];
      groups = groups;
      namespaces = put_all text_eq raw.namespaces [];
      path = some path;
    })

  unfoldable pub parse_str : Text → FilePath → Result ConfigParseError (PitchforkToml S)
  unfolding convert
  parse_str content path = elim (f.from_str content) [
    | none ↦ err (toml_error path)
    | some raw ↦ convert path raw
  ]

  unfoldable pub read : FilePath → Result ConfigParseError (PitchforkToml S)
  unfolding parse_str
  read path =
      if not (f.exists path)
      then ok (new (some path))
      else (if not (f.lock path) then err (lock_error path) else elim (f.read_to_string path) [
        | none ↦ err (read_error path)
        | some raw ↦ parse_str raw path
      ])
