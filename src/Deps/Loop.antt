-- ===== src/Deps/Loop.antt =====
-- The `while` loop of step 3 of `resolve_dependencies` in src/deps.rs: its fuel, and
-- what its levels depend on.
use pitchfork.Prelude.{
  ℕ, zero, suc, ◌+◌, ◌≤◌, ◌<◌, ◌≡◌, true, Option, List, [], ◌∷◌, ◌++◌, arith, refl, length,
  length-append, ok, append_assoc, append-nil,
}
use pitchfork.DaemonId.{DaemonId, id_le}
use pitchfork.Config.{Daemons}
use pitchfork.Deps.{Ids, elem, Kahn, process_levels, sort}
use pitchfork.Deps.Count.{
  count, count-append, count-sort, elem-eq-count, elem→count, count→elem, IsSetOf,
  length-le_of_count,
}
use pitchfork.Deps.Edges.{degree_of}
use pitchfork.Deps.Nodes.{depends_of}
use pitchfork.Deps.Levels.{Inv, Adjacent, ready, process_level_lem, pending-eq_zero}

abbrev pub flat : List Ids → Ids
flat [] = []
flat (level ∷ levels) = level ++ flat levels

-- Each daemon's dependencies are all seen before its level.
abbrev pub IsLayered : Daemons → Ids → List Ids → Type 0
IsLayered all_daemons seen [] = Unit
IsLayered all_daemons seen (level ∷ levels) =
    ((id d : DaemonId)
      → elem id level ≡ true
      → elem d (depends_of all_daemons id) ≡ true
      → elem d seen ≡ true)
    × IsLayered all_daemons (seen ++ level) levels

-- With each daemon its dependencies.
abbrev pub IsClosed : Daemons → Ids → Type 0
IsClosed all_daemons ids =
    (x d : DaemonId)
    → elem x ids ≡ true
    → elem d (depends_of all_daemons x) ≡ true
    → elem d ids ≡ true

count-flat_snoc :
    (x : DaemonId) (levels : List Ids) (level : Ids)
    → count x (flat (levels ++ level ∷ [])) ≡ count x (flat levels) + count x level
unfolding count
count-flat_snoc x [] level = ground (arith, count-append x level [])
count-flat_snoc x (l ∷ levels) level = ground (
  arith,
  count-flat_snoc x levels level,
  count-append x l (flat (levels ++ level ∷ [])),
  count-append x l (flat levels),
)

IsLayered-snoc :
    (all_daemons : Daemons) (seen : Ids) (levels : List Ids) (level : Ids)
    → IsLayered all_daemons seen levels
    → ((id d : DaemonId)
        → elem id level ≡ true
        → elem d (depends_of all_daemons id) ≡ true
        → elem d (seen ++ flat levels) ≡ true)
    → IsLayered all_daemons seen (levels ++ level ∷ [])
IsLayered-snoc all_daemons seen [] level h k = (λ id d m n. rw append-nil at (k id d m n), tt)
IsLayered-snoc all_daemons seen (l ∷ levels) level h k = (
  h.0,
  IsLayered-snoc all_daemons (seen ++ l) levels level h.1
      (λ id d m n. rw append_assoc (k id d m n)),
)

grows :
    (processed level after : Ids)
    → ((x : DaemonId) → count x after ≡ count x processed + count x level)
    → length processed + length level ≤ length after
grows processed level after c = omega (
  arith,
  length-append processed level,
  length-le_of_count (processed ++ level) after
      (λ x. omega (arith, c x, count-append x processed level)),
)

module _ (all_daemons : Daemons) (to_start : Ids) (set : IsSetOf to_start)
    (closed : IsClosed all_daemons to_start) where
  -- The end of the loop: each daemon that is ready has been processed.
  pub record Finished (processed : Ids) (levels : List Ids) : Type 0 where
    pub exact : (x : DaemonId) → count x processed ≡ ready all_daemons to_start processed x
    pub placed : (x : DaemonId) → count x (flat levels) ≡ count x processed
    pub layered : IsLayered all_daemons [] levels

  fits :
      (level : Ids) (k : Kahn)
      → Inv all_daemons to_start level k
      → length k.processed + length level ≤ length to_start
  fits level k inv = omega (
    arith,
    length-append k.processed level,
    length-le_of_count (k.processed ++ level) to_start (λ x.
        ground (arith, count-append x k.processed level, inv.counted x, elem-eq-count x to_start)),
  )

  level_deps :
      (level : Ids) (k : Kahn)
      → Inv all_daemons to_start level k
      → (levels : List Ids) → ((x : DaemonId) → count x (flat levels) ≡ count x k.processed)
      → (id d : DaemonId) → elem id level ≡ true
      → elem d (depends_of all_daemons id) ≡ true
      → elem d (flat levels) ≡ true
  level_deps level k inv levels placed id d m n =
      let here : 0 < count id level = elem→count id level m in
      let started : elem id to_start ≡ true = ground (arith, inv.counted id) in
      let none_left : degree_of all_daemons to_start k.processed id ≡ 0 =
        ground (arith, inv.counted id) in
      let done : elem d k.processed ≡ true =
        pending-eq_zero to_start k.processed (depends_of all_daemons id) d none_left n
          (closed id d started n) in
      count→elem d (flat levels) (omega (arith, placed d, elem→count d k.processed done))

  pub process_levels_lem :
      (fuel : ℕ) {dependents : DaemonId → Option Ids}
      (adjacent : Adjacent all_daemons to_start dependents) (level : Ids) (k : Kahn)
      (levels : List Ids)
      → Inv all_daemons to_start level (record k { next_level = [] })
      → ((x : DaemonId) → count x (flat levels) ≡ count x k.processed)
      → IsLayered all_daemons [] levels
      → length to_start < fuel + length k.processed
      → (processed : Ids) × (out : List Ids) × (process_levels fuel dependents level k levels
          ≡ ok (processed, out))
        × Finished processed out
  unfolding process_levels count
  process_levels_lem fuel adjacent [] k levels inv placed layered room = (
    k.processed,
    levels,
    refl,
    record { exact = λ x. ground (arith, inv.counted x); placed = placed; layered = layered },
  )
  process_levels_lem zero adjacent (id ∷ ids) k levels inv placed layered room =
      absurd (omega (arith, fits (id ∷ ids) (record k { next_level = [] }) inv))
  process_levels_lem (suc fuel) adjacent (id ∷ ids) k levels inv placed layered room =
      let (k', run, inv', c) =
        process_level_lem all_daemons to_start set adjacent (id ∷ ids)
          (record k { next_level = [] }) inv in
      let (processed, out, rest, finished) =
        process_levels_lem fuel adjacent (sort id_le k'.next_level) k' (levels ++ (id ∷ ids) ∷ [])
          (record {
            degrees = inv'.degrees;
            counted = λ x. ground (arith, inv'.counted x, count-sort id_le x k'.next_level);
          })
          (λ x. omega (arith, count-flat_snoc x levels (id ∷ ids), placed x, c x))
          (IsLayered-snoc all_daemons [] levels (id ∷ ids) layered
            (level_deps (id ∷ ids) (record k { next_level = [] }) inv levels placed))
          (omega (arith, grows k.processed (id ∷ ids) k'.processed c)) in
      (processed, out, rw (run, process_levels) rest, finished)
