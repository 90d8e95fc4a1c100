-- ===== src/Toml/Examples.antt =====
-- Runs of src/pitchfork_toml.rs on a project with a local file beside the shared one.
use pitchfork.Prelude.{
  ℕ, ◌≡◌, refl, true, ◌||◌, none, some, List, [], ◌∷◌, ok, inl, inr, if◌then◌else◌,
}
use pitchfork.Text.{
  Text, codes, text_eq, contains_char, contains, strip_prefix, ends_with_char, count_char,
  split_once,
}
use pitchfork.Paths.{file_name, path_ends_with, parent, join, rsplit_slash}
use pitchfork.Autostop.{is_prefix, segments}
use pitchfork.DaemonId.{
  DaemonId, id_eq, try_new, validate_component, is_component_char, parse, validate_qualified_id,
  is_printable_ascii, is_ascii_alphanumeric,
}
use pitchfork.Config.{FilePath}
use pitchfork.Batch.{Surroundings}
use pitchfork.Toml.{
  Names, PitchforkTomlDaemonRaw, PitchforkTomlRaw, PitchforkToml, Files, NamespaceEntry,
}
use pitchfork.Toml.Parse.{daemon_of, parse_str}
use pitchfork.Toml.Merge.{all_merged_from, all_merged_all_namespaces}
use pitchfork.Deps.{elem, get}
use pitchfork.Toml.Namespaces.{namespace_from_file}
use pitchfork.Toml.Resolve.{resolve_ids_and_group, namespace_for_dir, resolve_one}
use pitchfork.Toml.Commands.{resolve_ids, resolve_ids-each, each}
use pitchfork.Toml.Qualified.{IsSound, parse_str-IsSound}
use pitchfork.Toml.Collisions.{all_merged_from-origin_of}
use pitchfork.Toml.Groups.{IsSelection, resolve_ids_and_group-IsSelection}
use pitchfork.Toml.Elsewhere.{get-all_merged_all_namespaces}
use pitchfork.Toml.Merge.{origin_of, list_paths_from}

abbrev pub base : FilePath
base = codes "/p/pitchfork.toml"

abbrev local : FilePath
local = codes "/p/pitchfork.local.toml"

abbrev pub surroundings : Surroundings
surroundings = record {
  cwd = codes "/p";
  global_user = codes "/u";
  global_system = codes "/s";
  global_slugs = [];
  resolve_namespace = λ entry. none;
  split = λ line. some (line ∷ []);
}

abbrev pub with : List Text → PitchforkTomlDaemonRaw
with depends = record {
  run = codes "serve";
  auto = [];
  cron = none;
  retry = record { count = 0 };
  ready_delay = none;
  ready_output = none;
  ready_http = none;
  ready_port = none;
  ready_cmd = none;
  port = none;
  expected_port = 80 ∷ [];
  auto_bump_port = some true;
  port_bump_attempts = none;
  boot_start = none;
  depends = depends;
  watch = [];
  watch_mode = none;
  dir = none;
  env = none;
  hooks = none;
  mise = none;
  user = none;
  memory_limit = none;
  cpu_limit = none;
  stop_signal = none;
  pty = none;
  time_retention = none;
  line_retention = none;
  archive_hook = none;
  logs = none;
}

abbrev raw_base : PitchforkTomlRaw ℕ
raw_base = record {
  namespace = none;
  daemons = (codes "db", with []) ∷ (codes "web", with (codes "db" ∷ [])) ∷ [];
  env = none;
  settings = none;
  slugs = [];
  groups = (codes "all", record { daemons = codes "db" ∷ codes "web" ∷ [] }) ∷ [];
  namespaces = [];
}

-- The local file has another database.
abbrev raw_local : PitchforkTomlRaw ℕ
raw_local = record raw_base { daemons = (codes "db", with (codes "q/disk" ∷ [])) ∷ []; groups = [] }

abbrev pub files : Files ℕ
files = record {
  exists = λ path. text_eq path base || text_eq path local;
  lock = λ path. true;
  read_to_string = λ path. some path;
  canonicalize = λ path. some path;
  find_up_all = λ cwd names. local ∷ base ∷ [];
  from_str = λ content. if text_eq content local then some raw_local else some raw_base;
  namespace_value = λ content. some none;
  default_settings = 0;
  merge_from = λ a b. b;
  default_port_bump_attempts = 10;
}

abbrev pub db : DaemonId
db = record { namespace = codes "p"; name = codes "db" }

abbrev pub web : DaemonId
web = record { namespace = codes "p"; name = codes "web" }

abbrev disk : DaemonId
disk = record { namespace = codes "q"; name = codes "disk" }

abbrev parsed : PitchforkToml ℕ
parsed = record {
  daemons =
      (db, daemon_of 10 base [] (with []))
      ∷ (web, daemon_of 10 base (db ∷ []) (with (codes "db" ∷ [])))
      ∷ [];
  env = none;
  namespace = none;
  settings = 0;
  slugs = [];
  groups = (codes "all", record { daemons = db ∷ web ∷ [] }) ∷ [];
  namespaces = [];
  path = some base;
}

-- The local file replaces the database, which stays at its position.
abbrev pub merged : PitchforkToml ℕ
merged = record parsed {
  daemons =
      (db, daemon_of 10 local (disk ∷ []) (with (codes "q/disk" ∷ [])))
      ∷ (web, daemon_of 10 base (db ∷ []) (with (codes "db" ∷ [])))
      ∷ [];
  path = none;
}

parses : parse_str surroundings files base base ≡ ok parsed
unfolding parse_str text_eq file_name path_ends_with is_prefix segments parent try_new
    validate_component contains_char contains strip_prefix ends_with_char is_component_char id_eq
parses = refl

pub merges : all_merged_from surroundings files (codes "/p") ≡ ok merged
unfolding all_merged_from text_eq file_name path_ends_with is_prefix segments parent try_new
    validate_component contains_char contains strip_prefix ends_with_char is_component_char id_eq
    join parse validate_qualified_id is_printable_ascii count_char split_once is_ascii_alphanumeric
    rsplit_slash get
merges = refl

parse_str-IsSound_example : IsSound surroundings files base parsed
parse_str-IsSound_example = parse_str-IsSound surroundings files base base parsed parses

base_namespace : namespace_from_file surroundings files base ≡ ok (codes "p")
unfolding namespace_from_file text_eq file_name path_ends_with is_prefix segments parent try_new
    validate_component contains_char contains strip_prefix ends_with_char is_component_char id_eq
base_namespace = refl

local_namespace : namespace_from_file surroundings files local ≡ ok (codes "p")
unfolding namespace_from_file text_eq file_name path_ends_with is_prefix segments parent try_new
    validate_component contains_char contains strip_prefix ends_with_char is_component_char id_eq
    join rsplit_slash is_ascii_alphanumeric
local_namespace = refl

all_merged_from-origin_of_example :
    origin_of surroundings files local ≡ origin_of surroundings files base
unfolding text_eq list_paths_from
all_merged_from-origin_of_example =
    all_merged_from-origin_of surroundings files (codes "/p") local base (codes "p") merged merges
      (inr (inr (inr (inl refl)))) (inr (inr (inl refl))) refl refl local_namespace base_namespace

-- The name comes before the group, which has the daemon too.
selected :
    resolve_ids_and_group surroundings files [] [] none
      (λ c n. none)
      (codes "web" ∷ [])
      (some (codes "all"))
    ≡ ok (web ∷ db ∷ [])
unfolding resolve_ids_and_group all_merged_from list_paths_from namespace_for_dir
    namespace_from_file text_eq file_name path_ends_with is_prefix segments parent try_new
    validate_component contains_char contains strip_prefix ends_with_char is_component_char id_eq
    join parse validate_qualified_id is_printable_ascii count_char split_once is_ascii_alphanumeric
    rsplit_slash elem get
selected = refl

current : namespace_for_dir surroundings files (codes "/p") ≡ ok (codes "p")
unfolding namespace_for_dir list_paths_from namespace_from_file text_eq file_name path_ends_with
    is_prefix segments parent try_new validate_component contains_char contains strip_prefix
    ends_with_char is_component_char id_eq join rsplit_slash is_ascii_alphanumeric
current = refl

resolve_ids_and_group-IsSelection_example :
    IsSelection surroundings files [] [] none
      (λ c n. none)
      merged
      (codes "p")
      (codes "web" ∷ [])
      (some (codes "all"))
      (web ∷ db ∷ [])
resolve_ids_and_group-IsSelection_example =
    resolve_ids_and_group-IsSelection surroundings files [] [] none (λ c n. none) (codes "web" ∷ [])
      (some (codes "all")) merged (codes "p") (web ∷ db ∷ []) merges current selected

resolve_ids-each_example :
    resolve_ids surroundings files [] [] none (λ c n. none) (codes "web" ∷ codes "q/disk" ∷ [])
    ≡ each
        (resolve_one surroundings files [] [] none (λ c n. none) merged.daemons (codes "p"))
        (codes "web" ∷ codes "q/disk" ∷ [])
resolve_ids-each_example =
    resolve_ids-each surroundings files [] [] none (λ c n. none) merged (codes "p")
      (codes "web" ∷ codes "q/disk" ∷ []) merges current

-- The registry has a namespace in the same directory, and so the same daemons.
abbrev pub registry : Names NamespaceEntry
registry = (codes "p", record { dir = codes "/p" }) ∷ []

whole : all_merged_all_namespaces surroundings files registry ≡ ok merged
unfolding all_merged_all_namespaces text_eq file_name path_ends_with is_prefix segments parent
    try_new validate_component contains_char contains strip_prefix ends_with_char is_component_char
    id_eq join parse validate_qualified_id is_printable_ascii count_char split_once
    is_ascii_alphanumeric rsplit_slash get
whole = refl

db_known :
    get db merged.daemons ≡ some (daemon_of 10 local (disk ∷ []) (with (codes "q/disk" ∷ [])))
unfolding get id_eq text_eq
db_known = refl

get-all_merged_all_namespaces_example :
    get db merged.daemons ≡ some (daemon_of 10 local (disk ∷ []) (with (codes "q/disk" ∷ [])))
get-all_merged_all_namespaces_example =
    get-all_merged_all_namespaces surroundings files registry merged merged db
      (daemon_of 10 local (disk ∷ []) (with (codes "q/disk" ∷ []))) merges whole db_known
