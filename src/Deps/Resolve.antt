-- ===== src/Deps/Resolve.antt =====
-- `resolve_dependencies` of src/deps.rs as a whole: its order, its errors, and when it succeeds.
use pitchfork.Prelude.{
  ◌≡◌, ◌↔◌, true, none, List, [], arith, sym, ◌∙◌, Result, ok, err, ◌>>=◌, inl, inr,
}
use pitchfork.DaemonId.{DaemonId, qualified}
use pitchfork.Config.{Daemons}
use pitchfork.Deps.{
  Ids, elem, get, order_levels, resolve_dependencies, not_found, DependencyError,
  missing_dependency,
}
use pitchfork.Similar.{FuzzyMatch}
use pitchfork.Deps.Count.{count, IsSetOf, elem-eq-count}
use pitchfork.Deps.Edges.{IsConfigured}
use pitchfork.Deps.Nodes.{depends_of}
use pitchfork.Deps.Loop.{flat, IsLayered, IsClosed}
use pitchfork.Deps.Order.{IsOrder, IsKnot, circular, order_levels_lem}
use pitchfork.Deps.Collect.{IsStartSet, Collected, collected}
use pitchfork.Deps.Queue.{Needed}

-- Iterating a set gives its elements, each once, in some order.
abbrev pub IsIteration : (Ids → Ids) → Type 0
IsIteration hash_order = (ids : Ids) (x : DaemonId) → count x (hash_order ids) ≡ count x ids

module _ (all_daemons : Daemons) (requested : Ids) where
  -- The levels hold what the requested daemons need, all of it configured, each daemon once and
  -- behind its dependencies.
  pub record IsResolution (levels : List Ids) : Type 0 where
    pub layered : IsLayered all_daemons [] levels
    pub once : IsSetOf (flat levels)
    pub members : (x : DaemonId) → (elem x (flat levels) ≡ true) ↔ Needed all_daemons requested x
    pub configured : IsConfigured all_daemons (flat levels)

  -- Needed daemons each of which depends on one of them.
  pub record IsCycle (ids : Ids) : Type 0 where
    pub member : DaemonId
    pub nonempty : elem member ids ≡ true
    pub needed : (x : DaemonId) → elem x ids ≡ true → Needed all_daemons requested x
    pub waits :
        (x : DaemonId)
        → elem x ids ≡ true
        → (d : DaemonId) × (elem d ids ≡ true) × (elem d (depends_of all_daemons x) ≡ true)

  pub data Resolved (fuzzy_match : FuzzyMatch) : Result DependencyError (List Ids) → Type 0 where
    ordered : {levels : List Ids} → IsResolution levels → Resolved fuzzy_match (ok levels)
    unknown :
        (id : DaemonId)
        → elem id requested ≡ true
        → get id all_daemons ≡ none
        → Resolved fuzzy_match (err (not_found fuzzy_match all_daemons id))
    missing :
        (id dep : DaemonId)
        → Needed all_daemons requested id
        → elem dep (depends_of all_daemons id) ≡ true
        → get dep all_daemons ≡ none
        → Resolved fuzzy_match (err (missing_dependency (qualified id) (qualified dep)))
    cycle : {ids : Ids} → IsCycle ids → Resolved fuzzy_match (err (circular ids))

-- A closed set with the requested daemons holds all that they need.
Needed-in :
    (all_daemons : Daemons) (requested ids : Ids)
    → IsClosed all_daemons ids
    → ((x : DaemonId) → elem x requested ≡ true → elem x ids ≡ true)
    → (x : DaemonId) → Needed all_daemons requested x
    → elem x ids ≡ true
Needed-in all_daemons requested ids closed has x (Needed.root _ m) = has x m
Needed-in all_daemons requested ids closed has x (Needed.dependency y _ n m) =
    closed y x (Needed-in all_daemons requested ids closed has y n) m

module _ (fuzzy_match : FuzzyMatch) (hash_order : Ids → Ids) (iterates : IsIteration hash_order)
    (all_daemons : Daemons) (requested : Ids) where
  same_elem : (x : DaemonId) (ids : Ids) → elem x (hash_order ids) ≡ elem x ids
  same_elem x ids =
      ground (arith, elem-eq-count x (hash_order ids), elem-eq-count x ids, iterates ids x)

  module _ (to_start : Ids) (h : IsStartSet fuzzy_match all_daemons requested to_start) where
    resolution :
        (levels : List Ids)
        → IsOrder all_daemons (hash_order to_start) levels
        → IsResolution all_daemons requested levels
    resolution levels o =
        let counts : (x : DaemonId) → count x (flat levels) ≡ count x to_start =
          λ x. o.members x ∙ iterates to_start x in
        let same : (x : DaemonId) → elem x (flat levels) ≡ elem x to_start =
          λ x. ground (arith, elem-eq-count x (flat levels), elem-eq-count x to_start, counts x) in
        record {
          layered = o.layered;
          once = λ x. rw counts (h.set x);
          members = λ x. (
            (λ m. h.needed x (sym (same x) ∙ m)),
            λ n. same x ∙ Needed-in all_daemons requested to_start h.closed h.requested_in x n,
          );
          configured = λ x m. h.configured x (sym (same x) ∙ m);
        }

    cyclic :
        (ids : Ids)
        → IsKnot all_daemons (hash_order to_start) ids
        → IsCycle all_daemons requested ids
    cyclic ids k = record {
      member = k.member;
      nonempty = k.nonempty;
      needed = λ x m. h.needed x (sym (same_elem x to_start) ∙ k.inside x m);
      waits = k.waits;
    }

    ordered_or_not :
        Resolved all_daemons requested fuzzy_match (order_levels all_daemons (hash_order to_start))
    ordered_or_not =
        elim (order_levels_lem all_daemons (hash_order to_start) (λ x. rw iterates (h.set x))
          (λ x m. h.configured x (sym (same_elem x to_start) ∙ m))
          (λ x d m n. same_elem d to_start ∙ h.closed x d (sym (same_elem x to_start) ∙ m) n)) [
            | inl (levels, e, o) ↦ rw e (Resolved.ordered (resolution levels o))
            | inr (ids, e, k) ↦ rw e (Resolved.cycle (cyclic ids k))
          ]

  after_collect :
      {r : Result DependencyError Ids}
      → Collected fuzzy_match all_daemons requested r
      → Resolved all_daemons requested fuzzy_match
          (r >>= λ to_start. order_levels all_daemons (hash_order to_start))
  after_collect (Collected.found {to_start = to_start} h) = ordered_or_not to_start h
  after_collect (Collected.unknown id m e) = Resolved.unknown id m e
  after_collect (Collected.missing id dep n m e) = Resolved.missing id dep n m e

  -- Every run ends in an order of what is needed or in one of the three errors of the program, each
  -- with its reason in the configuration: no internal error, no underflow, and fuel enough.
  pub resolve_dependencies-Resolved :
      Resolved all_daemons requested fuzzy_match
        (resolve_dependencies fuzzy_match hash_order requested all_daemons)
  unfolding resolve_dependencies
  resolve_dependencies-Resolved = after_collect (collected fuzzy_match all_daemons requested)
