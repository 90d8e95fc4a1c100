-- ===== src/Toml/Namespaces.antt =====
-- The namespace of a configuration file, in src/pitchfork_toml.rs.
use pitchfork.Prelude.{
  Bool, false, not, Option, none, some, Result, ok, err, if◌then◌else◌, ◌>>=◌, ◌>>◌, refuse,
}
use pitchfork.Text.{Text, codes, text_eq}
use pitchfork.DaemonId.{try_new, global}
use pitchfork.Daemon.{and_then, or_else}
use pitchfork.Config.{FilePath}
use pitchfork.Paths.{parent, join, file_name}
use pitchfork.Batch.{Surroundings, is_global_config, is_dot_config_pitchfork}
use pitchfork.Toml.{
  ConfigParseError, not_a_string, must_be_global, invalid, derived, differs_from_base, toml_error,
  read_error, no_namespace, invalid_namespace, Files, NamespaceValue,
}

abbrev pub is_local_config : FilePath → Bool
is_local_config path = elim (file_name path) [
  | none ↦ false
  | some n ↦ text_eq n (codes "pitchfork.local.toml")
]

unfoldable pub sibling_base_config : FilePath → Option FilePath
sibling_base_config path =
    if not (is_local_config path)
    then none
    else and_then (parent path) (λ p. some (join p (codes "pitchfork.toml")))

unfoldable pub validate_namespace : FilePath → Text → Result ConfigParseError Text
validate_namespace path namespace = elim (try_new namespace (codes "probe")) [
  | err e ↦ err (invalid_namespace path namespace (invalid e))
  | ok probe ↦ ok namespace
]

-- The namespace that a file says, if it is the one that the file beside it says, or that says none.
unfoldable pub agree : FilePath → (explicit base : Option Text) → Result ConfigParseError (Unit {0})
agree path none base = ok tt
agree path (some local_ns) none = ok tt
agree path (some local_ns) (some base_ns) =
    refuse (not (text_eq local_ns base_ns))
      (invalid_namespace path local_ns (differs_from_base base_ns))

module _ (w : Surroundings) where
  -- The directory that a project file is in, which may have it in a directory `.config`.
  abbrev pub project_dir : FilePath → Option FilePath
  project_dir path =
      if is_dot_config_pitchfork w path then and_then (parent path) parent else parent path

  unfoldable pub derive_namespace_from_dir : FilePath → Result ConfigParseError Text
  derive_namespace_from_dir path = elim (and_then (project_dir path) file_name) [
    | none ↦ err (no_namespace path)
    | some raw_namespace ↦ elim (try_new raw_namespace (codes "probe")) [
      | err e ↦ err (invalid_namespace path raw_namespace (derived e))
      | ok probe ↦ ok raw_namespace
    ]
  ]

  unfoldable pub namespace_from_path_with_override :
      FilePath → (explicit : Option Text) → Result ConfigParseError Text
  unfolding validate_namespace derive_namespace_from_dir
  namespace_from_path_with_override path none =
      if is_global_config w path then ok global else derive_namespace_from_dir path
  namespace_from_path_with_override path (some ns) =
      if is_global_config w path
      then (if not (text_eq ns global)
          then err (invalid_namespace path ns must_be_global)
          else ok global)
      else validate_namespace path ns

module _ {S : Type 0} (w : Surroundings) (f : Files S) where
  abbrev pub namespace_string :
      FilePath → Option (NamespaceValue S) → Result ConfigParseError (Option Text)
  namespace_string path none = ok none
  namespace_string path (some (NamespaceValue.string s)) = ok (some s)
  namespace_string path (some (NamespaceValue.other s)) =
      err (invalid_namespace path s not_a_string)

  unfoldable pub parse_namespace_override_from_content :
      FilePath → Text → Result ConfigParseError (Option Text)
  parse_namespace_override_from_content path content = elim (f.namespace_value content) [
    | none ↦ err (toml_error path)
    | some value ↦ namespace_string path value
  ]

  unfoldable pub read_namespace_override_from_file :
      FilePath → Result ConfigParseError (Option Text)
  unfolding parse_namespace_override_from_content
  read_namespace_override_from_file path =
      if not (f.exists path) then ok none else elim (f.read_to_string path) [
        | none ↦ err (read_error path)
        | some content ↦ parse_namespace_override_from_content path content
      ]

  -- What the file beside a local file says.
  unfoldable pub base_explicit : FilePath → Result ConfigParseError (Option Text)
  unfolding sibling_base_config read_namespace_override_from_file
  base_explicit path = elim (sibling_base_config path) [
    | none ↦ ok none
    | some p ↦ (if f.exists p then read_namespace_override_from_file p else ok none)
  ]

  unfoldable pub namespace_from_file : FilePath → Result ConfigParseError Text
  unfolding base_explicit agree namespace_from_path_with_override
  namespace_from_file path = do
    explicit ← read_namespace_override_from_file path
    base ← base_explicit path
    agree path explicit base
    namespace_from_path_with_override w path (or_else explicit base)
