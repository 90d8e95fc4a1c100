-- ===== src/Toml/Commands.antt =====
-- How commands find the daemons that they are about, in src/pitchfork_toml.rs: in the configuration of
-- the current directory.
use pitchfork.Prelude.{
  ◌≡◌, Bool, true, Option, List, [], ◌∷◌, all, Result, ok, err, if◌then◌else◌, ◌>>=◌, arith, refl,
  Bool-cases, inl, inr,
}
use pitchfork.Text.{Text, contains_char}
use pitchfork.DaemonId.{DaemonId, try_new, parse, slash, global}
use pitchfork.Config.{FilePath, Daemons}
use pitchfork.Deps.{Ids, contains_key}
use pitchfork.Similar.{FuzzyMatch}
use pitchfork.Batch.{Surroundings, SlugEntry}
use pitchfork.Toml.{Names, NamespaceEntry, PitchforkToml, Files}
use pitchfork.Toml.Merge.{all_merged_from}
use pitchfork.Toml.Resolve.{
  ResolveError, ambiguous, candidates, of_id, of_config, namespace_for_dir, resolve_daemon_id,
  resolve_daemon_id_with_namespace, resolve_one,
}

-- `map`, and `collect` of results: the first error, if there is one.
unfoldable pub each : {E : Type 0} → (Text → Result E DaemonId) → List Text → Result E Ids
each resolve [] = ok []
each resolve (x ∷ xs) =
    let rest = each resolve xs in resolve x >>= λ id. rest >>= λ ids. ok (id ∷ ids)

abbrev pub is_qualified : Text → Bool
is_qualified user_id = contains_char user_id slash

module _ {S : Type 0} (w : Surroundings) (f : Files S) (slugs : Names SlugEntry)
    (registry : Names NamespaceEntry) (state_daemons : Option Ids) (fuzzy_match : FuzzyMatch) where
  unfoldable pub resolve_daemon_id_prefer_local :
      Daemons → Text → (current_dir : FilePath) → Result ResolveError DaemonId
  resolve_daemon_id_prefer_local daemons user_id current_dir =
      if is_qualified user_id
      then of_id (parse user_id)
      else (of_config (namespace_for_dir w f current_dir) >>= λ current.
          resolve_daemon_id_with_namespace w f slugs registry state_daemons fuzzy_match daemons
            user_id current)

  unfoldable pub resolve_id : Text → Result ResolveError DaemonId
  resolve_id user_id =
      if is_qualified user_id
      then of_id (parse user_id)
      else (of_config (all_merged_from w f w.cwd) >>= λ pt.
          of_config (namespace_for_dir w f w.cwd) >>= λ ns.
          resolve_daemon_id_with_namespace w f slugs registry state_daemons fuzzy_match pt.daemons
            user_id ns)

  -- The daemon that a name is matched by, or a new one of the global namespace.
  unfoldable pub or_adhoc : Text → Ids → Result ResolveError DaemonId
  or_adhoc user_id [] = of_id (try_new global user_id)
  or_adhoc user_id (id ∷ []) = ok id
  or_adhoc user_id (id ∷ id2 ∷ ids) = err (ambiguous user_id (candidates (id ∷ id2 ∷ ids)))

  unfoldable pub adhoc_in : Daemons → (user_id ns : Text) → Result ResolveError DaemonId
  unfolding or_adhoc
  adhoc_in daemons user_id ns = of_id (try_new ns user_id) >>= λ preferred_id.
      if contains_key preferred_id daemons
      then ok preferred_id
      else (resolve_daemon_id w f slugs registry state_daemons daemons user_id >>= λ ids.
          or_adhoc user_id ids)

  unfoldable pub resolve_id_allow_adhoc : Text → Result ResolveError DaemonId
  unfolding adhoc_in
  resolve_id_allow_adhoc user_id =
      if is_qualified user_id
      then of_id (parse user_id)
      else (of_config (all_merged_from w f w.cwd) >>= λ pt.
          of_config (namespace_for_dir w f w.cwd) >>= λ ns. adhoc_in pt.daemons user_id ns)

  -- Qualified identifiers are parsed without a look at the configuration.
  unfoldable pub resolve_ids : List Text → Result ResolveError Ids
  unfolding each
  resolve_ids user_ids =
      if all is_qualified user_ids
      then each (λ s. of_id (parse s)) user_ids
      else (of_config (all_merged_from w f w.cwd) >>= λ pt.
          of_config (namespace_for_dir w f w.cwd) >>= λ ns.
          each (resolve_one w f slugs registry state_daemons fuzzy_match pt.daemons ns) user_ids)

  each_qualified :
      (daemons : Daemons) (ns : Text) (user_ids : List Text)
      → all is_qualified user_ids ≡ true
      → each (λ s. of_id (parse s)) user_ids
        ≡ each (resolve_one w f slugs registry state_daemons fuzzy_match daemons ns) user_ids
  unfolding each resolve_one
  each_qualified daemons ns [] h = refl
  each_qualified daemons ns (x ∷ xs) h =
      let here : is_qualified x ≡ true = ground (arith, h) in
      rw (here, each_qualified daemons ns xs (ground (arith, h))) refl

  -- If the configuration can be read, `resolve_ids` resolves each name by itself, in order, to the
  -- first error: that it parses qualified identifiers without the configuration makes no difference.
  pub resolve_ids-each :
      (pt : PitchforkToml S) (ns : Text) (user_ids : List Text)
      → all_merged_from w f w.cwd ≡ ok pt
      → namespace_for_dir w f w.cwd ≡ ok ns
      → resolve_ids user_ids
        ≡ each (resolve_one w f slugs registry state_daemons fuzzy_match pt.daemons ns) user_ids
  unfolding resolve_ids
  resolve_ids-each pt ns user_ids merged current = elim (Bool-cases (all is_qualified user_ids)) [
    | inl qualified_all ↦
        rw (resolve_ids, qualified_all) (each_qualified pt.daemons ns user_ids qualified_all)
    | inr some_short ↦ rw (resolve_ids, some_short, merged, current) refl
  ]
