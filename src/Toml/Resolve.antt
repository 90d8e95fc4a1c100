-- ===== src/Toml/Resolve.antt =====
-- From the names that a user writes to identifiers, in src/pitchfork_toml.rs. The daemons of the state
-- file are a parameter, none if it cannot be read.
use pitchfork.Prelude.{
  Bool, not, Option, none, some, List, [], ◌∷◌, ◌++◌, map, keep, Result, ok, err, if◌then◌else◌,
  ◌>>=◌, is_empty,
}
use pitchfork.Text.{Text, text_eq, text_le, contains_char}
use pitchfork.DaemonId.{DaemonId, DaemonIdError, try_new, parse, slash, qualified, global}
use pitchfork.Daemon.{and_then, or_else, unwrap_or}
use pitchfork.Config.{FilePath, Daemons}
use pitchfork.Deps.{Ids, elem, contains_key, keys, sort}
use pitchfork.Similar.{FuzzyMatch, find_similar_daemon}
use pitchfork.Batch.{Surroundings, SlugEntry}
use pitchfork.Toml.{
  Names, lookup, ConfigParseError, GroupEntry, NamespaceEntry, PitchforkToml, Files,
}
use pitchfork.Toml.Namespaces.{namespace_from_file}
use pitchfork.Toml.Merge.{all_merged_from, list_paths_from}

pub data ResolveError : Type 0 where
  invalid_id : (e : DaemonIdError) → ResolveError
  config : (e : ConfigParseError) → ResolveError
  ambiguous_slug : (slug daemon : Text) (candidates : List Text) → ResolveError
  ambiguous : (name : Text) (candidates : List Text) → ResolveError
  daemon_not_found : (name : Text) (suggestion : Option Text) → ResolveError
  undefined_in_group : (group : Text) (missing : List Text) → ResolveError
  group_not_found : (group : Text) (suggestion : Option Text) → ResolveError

abbrev pub of_id : Result DaemonIdError DaemonId → Result ResolveError DaemonId
of_id (ok id) = ok id
of_id (err e) = err (invalid_id e)

abbrev pub of_config : {A : Type 0} → Result ConfigParseError A → Result ResolveError A
of_config (ok a) = ok a
of_config (err e) = err (config e)

-- The daemons with a name.
unfoldable pub matching : Text → Ids → Ids
matching name ids = keep (λ id. text_eq id.name name) ids

abbrev pub candidates : Ids → List Text
candidates ids = sort text_le (map qualified ids)

-- `rfind`
unfoldable pub last_that : {A : Type 0} → (A → Bool) → List A → Option A
last_that p [] = none
last_that p (x ∷ xs) = or_else (last_that p xs) (if p x then some x else none)

-- `seen.insert`, and the list if it was new.
unfoldable pub push_new : DaemonId → Ids → Ids
push_new id ids = if elem id ids then ids else ids ++ id ∷ []

unfoldable pub push_all : Ids → Ids → Ids
unfolding push_new
push_all [] ids = ids
push_all (id ∷ more) ids = push_all more (push_new id ids)

unfoldable pub namespace_for_dir :
    {S : Type 0} (w : Surroundings) (f : Files S) → FilePath → Result ConfigParseError Text
unfolding last_that
namespace_for_dir w f dir = elim (last_that f.exists (list_paths_from w f dir)) [
  | none ↦ ok global
  | some path ↦ namespace_from_file w f path
]

module _ {S : Type 0} (w : Surroundings) (f : Files S) (slugs : Names SlugEntry)
    (registry : Names NamespaceEntry) (state_daemons : Option Ids) where
  -- `SlugEntry::resolve_dir`
  unfoldable pub resolve_dir : SlugEntry → Option FilePath
  unfolding lookup
  resolve_dir entry =
      or_else entry.dir
        (and_then entry.namespace (λ ns. and_then (lookup text_eq ns registry) (λ e. some e.dir)))

  abbrev pub keys_of : Result ConfigParseError (PitchforkToml S) → Ids
  keys_of (ok pt) = keys pt.daemons
  keys_of (err e) = []

  -- The daemons that a slug can stand for.
  unfoldable pub slug_matches : Text → SlugEntry → Ids
  unfolding resolve_dir matching
  slug_matches user_id entry = elim (resolve_dir entry) [
    | none ↦ []
    | some dir ↦ matching (unwrap_or entry.daemon user_id) (keys_of (all_merged_from w f dir))
  ]

  -- The daemon that a name is a slug of, if it is one of exactly one.
  abbrev pub single : (user_id daemon : Text) → Ids → Result ResolveError (Option DaemonId)
  single user_id daemon [] = ok none
  single user_id daemon (id ∷ []) = ok (some id)
  single user_id daemon (id ∷ id2 ∷ ids) =
      err (ambiguous_slug user_id daemon (candidates (id ∷ id2 ∷ ids)))

  unfoldable pub by_slug : Text → Result ResolveError (Option DaemonId)
  unfolding slug_matches lookup
  by_slug user_id = elim (lookup text_eq user_id slugs) [
    | none ↦ ok none
    | some entry ↦ single user_id (unwrap_or entry.daemon user_id) (slug_matches user_id entry)
  ]

  unfoldable pub find_in_state_file : Text → Ids
  unfolding matching
  find_in_state_file name = matching name (unwrap_or state_daemons [])

  -- The daemon of the state file with a name that is not configured.
  abbrev pub of_state : Text → Ids → Result ResolveError Ids
  of_state user_id [] = (of_id (try_new global user_id) >>= λ id. ok [])
  of_state user_id (id ∷ []) = ok (id ∷ [])
  of_state user_id (id ∷ id2 ∷ ids) = err (ambiguous user_id (candidates (id ∷ id2 ∷ ids)))

  unfoldable pub resolve_short : Daemons → Text → Option DaemonId → Result ResolveError Ids
  unfolding matching find_in_state_file
  resolve_short daemons user_id (some id) = ok (id ∷ [])
  resolve_short daemons user_id none =
      let matches = matching user_id (keys daemons) in
      let stored = of_state user_id (find_in_state_file user_id) in
      if is_empty matches then stored else ok matches

  unfoldable pub resolve_daemon_id : Daemons → Text → Result ResolveError Ids
  unfolding by_slug resolve_short
  resolve_daemon_id daemons user_id =
      if contains_char user_id slash
      then (of_id (parse user_id) >>= λ id. ok (id ∷ []))
      else by_slug user_id >>= λ found. resolve_short daemons user_id found

  -- What becomes of the matches of a name that the namespace does not have.
  unfoldable pub unambiguous : FuzzyMatch → Daemons → Text → Ids → Result ResolveError DaemonId
  unambiguous fuzzy_match daemons user_id [] = of_id (try_new global user_id) >>= λ global_id.
      if contains_key global_id daemons
      then ok global_id
      else err (
          daemon_not_found user_id (
            find_similar_daemon fuzzy_match user_id
              (map (λ (id : DaemonId). id.name) (keys daemons))))
  unambiguous fuzzy_match daemons user_id (id ∷ []) = ok id
  unambiguous fuzzy_match daemons user_id (id ∷ id2 ∷ ids) =
      err (ambiguous user_id (candidates (id ∷ id2 ∷ ids)))

  unfoldable pub resolve_in_namespace :
      FuzzyMatch
      → Daemons
      → (user_id current : Text) → Option DaemonId
      → Result ResolveError DaemonId
  unfolding resolve_daemon_id unambiguous
  resolve_in_namespace fuzzy_match daemons user_id current (some id) = ok id
  resolve_in_namespace fuzzy_match daemons user_id current none =
      of_id (try_new current user_id) >>= λ preferred_id.
      if contains_key preferred_id daemons
      then ok preferred_id
      else (resolve_daemon_id daemons user_id >>= λ ids.
          unambiguous fuzzy_match daemons user_id ids)

  unfoldable pub resolve_daemon_id_with_namespace :
      FuzzyMatch → Daemons → (user_id current_namespace : Text) → Result ResolveError DaemonId
  unfolding by_slug resolve_in_namespace
  resolve_daemon_id_with_namespace fuzzy_match daemons user_id current_namespace =
      by_slug user_id >>= λ found.
      resolve_in_namespace fuzzy_match daemons user_id current_namespace found

  -- A name, or a qualified identifier.
  unfoldable pub resolve_one :
      FuzzyMatch → Daemons → (namespace user_id : Text) → Result ResolveError DaemonId
  unfolding resolve_daemon_id_with_namespace
  resolve_one fuzzy_match daemons namespace user_id =
      if contains_char user_id slash
      then of_id (parse user_id)
      else resolve_daemon_id_with_namespace fuzzy_match daemons user_id namespace

  unfoldable pub push_each : FuzzyMatch → Daemons → Text → List Text → Ids → Result ResolveError Ids
  unfolding resolve_one push_new
  push_each fuzzy_match daemons namespace [] ids = ok ids
  push_each fuzzy_match daemons namespace (user_id ∷ user_ids) ids =
      resolve_one fuzzy_match daemons namespace user_id >>= λ id.
      push_each fuzzy_match daemons namespace user_ids (push_new id ids)

  unfoldable pub push_group :
      FuzzyMatch → PitchforkToml S → Option Text → Ids → Result ResolveError Ids
  unfolding push_all lookup
  push_group fuzzy_match pt none ids = ok ids
  push_group fuzzy_match pt (some name) ids = elim (lookup text_eq name pt.groups) [
    | none ↦ err (
        group_not_found name
          (find_similar_daemon fuzzy_match name (map (λ (g : Text × GroupEntry). g.0) pt.groups)))
    | some group ↦
        let missing = keep (λ id. not (contains_key id pt.daemons)) group.daemons in
        if not (is_empty missing)
        then err (undefined_in_group name (map qualified missing))
        else ok (push_all group.daemons ids)
  ]

  unfoldable pub resolve_ids_and_group :
      FuzzyMatch → List Text → (group_name : Option Text) → Result ResolveError Ids
  unfolding push_each push_group namespace_for_dir
  resolve_ids_and_group fuzzy_match user_ids group_name = do
    pt ← of_config (all_merged_from w f w.cwd)
    namespace ← of_config (namespace_for_dir w f w.cwd)
    ids ← push_each fuzzy_match pt.daemons namespace user_ids []
    push_group fuzzy_match pt group_name ids
