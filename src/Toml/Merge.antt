-- ===== src/Toml/Merge.antt =====
-- Merging the configuration files that count in a directory, in src/pitchfork_toml.rs.
use mathlib.Core.List.{reverse}
use pitchfork.Prelude.{
  Bool, false, not, ◌&&◌, Option, none, some, List, [], ◌∷◌, Result, ok, err, if◌then◌else◌, ◌>>=◌,
  ◌>>◌, refuse,
}
use pitchfork.Text.{codes, text_eq}
use pitchfork.DaemonId.{id_eq}
use pitchfork.Daemon.{and_then, unwrap_or}
use pitchfork.Config.{FilePath, Daemons, Env}
use pitchfork.Deps.{contains_key}
use pitchfork.Batch.{Surroundings, is_global_config}
use pitchfork.Toml.{
  Names, put, put_all, lookup, ConfigParseError, namespace_collision, NamespaceEntry, PitchforkToml,
  Files,
}
use pitchfork.Toml.Namespaces.{project_dir, namespace_from_file}
use pitchfork.Toml.Parse.{read, new}

abbrev pub merge_env : Option Env → Option Env → Option Env
merge_env env none = env
merge_env env (some new) = some (put_all text_eq new (unwrap_or env []))

-- The namespaces so far, each with a file that has it and the directory of its project.
abbrev pub Origins : Type 0
Origins = Names (FilePath × FilePath)

-- Another project has the namespace.
abbrev pub collides : (origin_dir : FilePath) → Option (FilePath × FilePath) → Bool
collides origin_dir none = false
collides origin_dir (some (other_path, other_dir)) = not (text_eq other_dir origin_dir)

abbrev pub other_path : Option (FilePath × FilePath) → FilePath
other_path none = []
other_path (some (path, dir)) = path

module _ {S : Type 0} (w : Surroundings) (f : Files S) where
  -- The other configuration overrides this one.
  unfoldable pub merge : PitchforkToml S → PitchforkToml S → PitchforkToml S
  unfolding put_all
  merge pt pt2 = record pt {
    daemons = put_all id_eq pt2.daemons pt.daemons;
    env = merge_env pt.env pt2.env;
    slugs = put_all text_eq pt2.slugs pt.slugs;
    groups = put_all text_eq pt2.groups pt.groups;
    namespaces = put_all text_eq pt2.namespaces pt.namespaces;
    settings = f.merge_from pt.settings pt2.settings;
  }

  abbrev pub canonical : FilePath → FilePath
  canonical dir = unwrap_or (f.canonicalize dir) dir

  -- The directory of the project that a file belongs to.
  unfoldable pub origin_of : FilePath → FilePath
  origin_of path = unwrap_or (and_then (project_dir w path) (λ dir. some (canonical dir))) path

  abbrev pub is_project_file : FilePath → Bool
  is_project_file path = f.exists path && not (is_global_config w path)

  -- The namespace of a project file is that of its project only.
  unfoldable pub claim_namespace : FilePath → Origins → Result ConfigParseError Origins
  unfolding origin_of namespace_from_file put lookup
  claim_namespace path origins =
      if not (is_project_file path)
      then ok origins
      else (namespace_from_file w f path >>= λ ns.
          refuse (collides (origin_of path) (lookup text_eq ns origins))
            (namespace_collision (other_path (lookup text_eq ns origins)) path ns)
          >> ok (put text_eq ns (path, origin_of path) origins))

  unfoldable pub merge_files :
      List FilePath → Origins → PitchforkToml S → Result ConfigParseError (PitchforkToml S)
  unfolding claim_namespace merge read
  merge_files [] origins pt = ok pt
  merge_files (path ∷ paths) origins pt = read w f path >>= λ pt2.
      claim_namespace path origins >>= λ origins'. merge_files paths origins' (merge pt pt2)

  unfoldable pub list_paths_from : FilePath → List FilePath
  list_paths_from cwd =
      w.global_system
      ∷ w.global_user
      ∷ reverse (
          f.find_up_all cwd (
            codes "pitchfork.local.toml"
            ∷ codes "pitchfork.toml"
            ∷ codes ".config/pitchfork.local.toml"
            ∷ codes ".config/pitchfork.toml"
            ∷ []))

  unfoldable pub all_merged_from : FilePath → Result ConfigParseError (PitchforkToml S)
  unfolding merge_files list_paths_from
  all_merged_from cwd = merge_files (list_paths_from cwd) [] (new w f none)

  -- The daemons of another namespace, where there is none of the same identifier.
  unfoldable pub add_daemons : Daemons → Daemons → Daemons
  unfolding put
  add_daemons [] daemons = daemons
  add_daemons ((id, d) ∷ more) daemons =
      add_daemons more (if contains_key id daemons then daemons else put id_eq id d daemons)

  unfoldable pub add_namespaces : Names NamespaceEntry → PitchforkToml S → PitchforkToml S
  unfolding add_daemons all_merged_from
  add_namespaces [] pt = pt
  add_namespaces ((ns_name, entry) ∷ namespaces) pt =
      add_namespaces namespaces (elim (all_merged_from entry.dir) [
        | err e ↦ pt
        | ok ns_config ↦ record pt {
          daemons = add_daemons ns_config.daemons pt.daemons;
          settings = f.merge_from pt.settings ns_config.settings;
        }
      ])

  -- `namespaces` is the registry of `read_global_namespaces`.
  unfoldable pub all_merged_all_namespaces :
      Names NamespaceEntry → Result ConfigParseError (PitchforkToml S)
  unfolding add_namespaces
  all_merged_all_namespaces namespaces =
      all_merged_from w.cwd >>= λ pt. ok (add_namespaces namespaces pt)
