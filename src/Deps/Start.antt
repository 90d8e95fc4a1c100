-- ===== src/Deps/Start.antt =====
-- What a caller of `resolve_dependencies` in src/deps.rs can rely on.
use pitchfork.Prelude.{
  ℕ, zero, suc, ◌<◌, ◌≡◌, ◌≢◌, true, none, List, arith, refl, subst, Result, ok,
}
use pitchfork.DaemonId.{DaemonId}
use pitchfork.Config.{Daemons}
use pitchfork.Deps.{Ids, elem, get, resolve_dependencies, DependencyError}
use pitchfork.Similar.{FuzzyMatch}
use pitchfork.Deps.Nodes.{depends_of}
use pitchfork.Deps.Queue.{Needed}
use pitchfork.Deps.Resolve.{
  IsIteration, IsResolution, IsCycle, Resolved, resolve_dependencies-Resolved,
}

module _ (fuzzy_match : FuzzyMatch) (hash_order : Ids → Ids) (iterates : IsIteration hash_order)
    (all_daemons : Daemons) (requested : Ids) where
  abbrev result : Result DependencyError (List Ids)
  result = resolve_dependencies fuzzy_match hash_order requested all_daemons

  resolved : Resolved all_daemons requested fuzzy_match result
  resolved = resolve_dependencies-Resolved fuzzy_match hash_order iterates all_daemons requested

  levels_of :
      {r : Result DependencyError (List Ids)} (levels : List Ids)
      → Resolved all_daemons requested fuzzy_match r
      → r ≡ ok levels
      → IsResolution all_daemons requested levels
  levels_of levels (Resolved.ordered {levels = l} h) e =
      subst (IsResolution all_daemons requested) (ground arith) h
  levels_of levels (Resolved.unknown id m n) e = cc
  levels_of levels (Resolved.missing id dep n m k) e = cc
  levels_of levels (Resolved.cycle h) e = cc

  -- The levels that come out hold exactly what the requested daemons need, each daemon once, all of
  -- it configured, and every daemon in a later level than each of its dependencies.
  pub resolve_dependencies-IsResolution :
      (levels : List Ids)
      → resolve_dependencies fuzzy_match hash_order requested all_daemons ≡ ok levels
      → IsResolution all_daemons requested levels
  resolve_dependencies-IsResolution levels e = levels_of levels resolved e

  -- `rank` puts each dependency below the daemon that has it: no cycle.
  abbrev pub IsRanked : (DaemonId → ℕ) → Type 0
  IsRanked rank =
      (x d : DaemonId)
      → Needed all_daemons requested x
      → elem d (depends_of all_daemons x) ≡ true
      → rank d < rank x

  module _ (rank : DaemonId → ℕ) (ranked : IsRanked rank) (ids : Ids)
      (c : IsCycle all_daemons requested ids) where
    descent : (n : ℕ) (x : DaemonId) → elem x ids ≡ true → rank x < n → ⊥
    descent zero x m h = absurd (omega arith)
    descent (suc n) x m h =
        let (d, k, dep) = c.waits x m in
        descent n d k (omega (arith, ranked x d (c.needed x m) dep))

    no_cycle : ⊥
    no_cycle = descent (suc (rank c.member)) c.member c.nonempty (omega arith)

  succeeds :
      {r : Result DependencyError (List Ids)} (rank : DaemonId → ℕ)
      → IsRanked rank
      → ((x : DaemonId) → Needed all_daemons requested x → get x all_daemons ≢ none)
      → Resolved all_daemons requested fuzzy_match r
      → (levels : List Ids) × (r ≡ ok levels)
  succeeds rank ranked there (Resolved.ordered {levels = l} h) = (l, refl)
  succeeds rank ranked there (Resolved.unknown id m n) = absurd (there id (Needed.root id m) n)
  succeeds rank ranked there (Resolved.missing id dep n m k) =
      absurd (there dep (Needed.dependency id dep n m) k)
  succeeds rank ranked there (Resolved.cycle {ids = ids} h) = absurd (no_cycle rank ranked ids h)

  -- If all that is needed is configured and its dependencies have no cycle, levels come out.
  pub resolve_dependencies_acyclic :
      (rank : DaemonId → ℕ)
      → IsRanked rank
      → ((x : DaemonId) → Needed all_daemons requested x → get x all_daemons ≢ none)
      → (levels : List Ids) × (resolve_dependencies fuzzy_match hash_order requested all_daemons
          ≡ ok levels)
  resolve_dependencies_acyclic rank ranked there = succeeds rank ranked there resolved
