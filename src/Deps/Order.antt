-- ===== src/Deps/Order.antt =====
-- Steps 2 to 4 of `resolve_dependencies` in src/deps.rs, on any closed set of configured daemons in
-- any order.
use pitchfork.Prelude.{
  ℕ, suc, ◌+◌, ◌*◌, ◌≤◌, ◌<◌, ◌≡◌, Bool, true, false, not, ◌&&◌, List, [], ◌∷◌, arith, refl, ◌∙◌,
  ◌==◌, ==_iff, if◌then◌else◌, length, ok, err, Bool-cases, ◌⊎◌, inl, inr, keep, map,
}
use pitchfork.Text.{text_le}
use pitchfork.DaemonId.{DaemonId, id_le, qualified, id_eq_iff}
use pitchfork.Config.{Daemons}
use pitchfork.Deps.{
  Ids, elem, Graph, order_levels, has_degree_zero, unprocessed, sort, DependencyError,
  circular_dependency,
}
use pitchfork.Deps.Count.{
  count, count-sort, count-keep, elem-eq-count, IsSetOf, length-le_of_count, count-eq_of_length,
  id_eq_refl,
}
use pitchfork.Deps.Edges.{degree_of, edge_count, IsConfigured, graph_found}
use pitchfork.Deps.Nodes.{pending, depends_of, Describes}
use pitchfork.Deps.Levels.{ready}
use pitchfork.Deps.Loop.{flat, IsLayered, IsClosed, Finished, process_levels_lem}

-- The levels hold each daemon to start once, behind its dependencies.
pub record IsOrder (all_daemons : Daemons) (to_start : Ids) (levels : List Ids) : Type 0 where
  pub layered : IsLayered all_daemons [] levels
  pub members : (x : DaemonId) → count x (flat levels) ≡ count x to_start

-- Some of the daemons to start, each of which depends on one of them: there is a cycle among them.
pub record IsKnot (all_daemons : Daemons) (to_start ids : Ids) : Type 0 where
  pub member : DaemonId
  pub nonempty : elem member ids ≡ true
  pub inside : (x : DaemonId) → elem x ids ≡ true → elem x to_start ≡ true
  pub waits :
      (x : DaemonId)
      → elem x ids ≡ true
      → (d : DaemonId) × (elem d ids ≡ true) × (elem d (depends_of all_daemons x) ≡ true)

abbrev pub circular : Ids → DependencyError
circular ids = circular_dependency (sort text_le (map qualified ids))

-- A dependency that is to be started and is not processed.
pending-pos :
    (to_start processed deps : Ids)
    → 0 < pending to_start processed deps
    → (d : DaemonId) × (elem d deps ≡ true) × (elem d to_start ≡ true) × (elem d processed ≡ false)
unfolding pending elem
pending-pos s p [] h = absurd (omega arith)
pending-pos s p (x ∷ deps) h = elim (Bool-cases (elem x s && not (elem x p))) [
  | inl e ↦ (x, ground (arith, id_eq_refl x), ground arith, ground arith)
  | inr e ↦ let (d, m, n, k) = pending-pos s p deps (ground arith) in (d, ground arith, n, k)
]

find_missing :
    (xs ys : Ids)
    → ((x : DaemonId) × (elem x ys ≡ true) × (elem x xs ≡ false))
      ⊎ ((x : DaemonId) → elem x ys ≡ true → elem x xs ≡ true)
unfolding elem
find_missing xs [] = inr (λ x h. cc)
find_missing xs (y ∷ ys) = elim (Bool-cases (elem y xs)) [
  | inr absent ↦ inl (y, ground (arith, id_eq_refl y), absent)
  | inl present ↦ elim (find_missing xs ys) [
    | inl (x, m, n) ↦ inl (x, ground arith, n)
    | inr all ↦ inr (λ x h. ground (arith, all x, id_eq_iff y x))
  ]
]

-- A shorter list lacks something of a set.
missing_of_shorter :
    (xs ys : Ids)
    → IsSetOf ys
    → length xs < length ys
    → (x : DaemonId) × (elem x ys ≡ true) × (elem x xs ≡ false)
missing_of_shorter xs ys set h = elim (find_missing xs ys) [
  | inl found ↦ found
  | inr all ↦ absurd (
      omega (
        arith,
        length-le_of_count ys xs
            (λ x. ground (arith, set x, all x, elem-eq-count x ys, elem-eq-count x xs)),
      ))
]

start_counted :
    (to_start : Ids) (x : DaemonId) (n : ℕ) (zero_degree : Bool)
    → IsSetOf to_start
    → (elem x to_start ≡ true → zero_degree ≡ (n == 0))
    → (if zero_degree then count x to_start else 0) ≡ (if elem x to_start && n == 0 then 1 else 0)
start_counted to_start x n zero_degree set h = ground (arith, set x, elem-eq-count x to_start)

module _ (all_daemons : Daemons) (to_start : Ids) (set : IsSetOf to_start)
    (configured : IsConfigured all_daemons to_start) (closed : IsClosed all_daemons to_start) where
  first_counted :
      (g : Graph)
      → Describes to_start
          (degree_of all_daemons to_start [])
          (λ d x. count x to_start * edge_count all_daemons d x)
          g
      → (x : DaemonId)
      → 0 + count x (sort id_le (keep (has_degree_zero g) to_start)) + 0
        ≡ ready all_daemons to_start [] x
  first_counted g k x = omega (
    arith,
    count-sort id_le x (keep (has_degree_zero g) to_start),
    count-keep (has_degree_zero g) x to_start,
    start_counted to_start x (degree_of all_daemons to_start [] x) (has_degree_zero g x) set
        (λ m. ground (arith, k.degrees x m)),
  )

  ran :
      (processed : Ids) × (levels : List Ids) × Finished all_daemons to_start set closed processed
        levels
      × (order_levels all_daemons to_start ≡ (
          if length processed == length to_start
          then ok levels
          else err (circular (unprocessed processed to_start))))
  unfolding order_levels count
  ran =
      let (g, built, k) = graph_found all_daemons to_start set configured in
      let (processed, levels, run, finished) =
        process_levels_lem all_daemons to_start set closed (suc (length to_start))
          {dependents = g.dependents} k.adjacent (sort id_le (keep (has_degree_zero g) to_start))
          (record { in_degree = g.in_degree; processed = []; next_level = [] }) []
          (record { degrees = k.degrees; counted = λ x. first_counted g k x }) (λ x. refl) tt
          (omega arith) in
      (processed, levels, finished, rw built (rw run refl))

  module _ (processed : Ids) (levels : List Ids)
      (finished : Finished all_daemons to_start set closed processed levels) where
    elem-unprocessed :
        (x : DaemonId)
        → elem x (unprocessed processed to_start) ≡ (elem x to_start && not (elem x processed))
    unfolding unprocessed
    elem-unprocessed x = ground (
      arith,
      elem-eq-count x (keep (λ id. not (elem id processed)) to_start),
      count-keep (λ id. not (elem id processed)) x to_start,
      elem-eq-count x to_start,
    )

    waits_for :
        (x : DaemonId)
        → elem x (unprocessed processed to_start) ≡ true
        → (d : DaemonId) × (elem d (unprocessed processed to_start) ≡ true)
          × (elem d (depends_of all_daemons x) ≡ true)
    waits_for x m =
        let some_left : 0 < degree_of all_daemons to_start processed x =
          ground (arith, elem-unprocessed x, finished.exact x, elem-eq-count x processed) in
        let (d, n, started, left) =
          pending-pos to_start processed (depends_of all_daemons x) some_left in
        (d, ground (arith, elem-unprocessed d), n)

    knot :
        length processed < length to_start
        → IsKnot all_daemons to_start (unprocessed processed to_start)
    knot h =
        let (x, m, n) = missing_of_shorter processed to_start set h in
        record {
          member = x;
          nonempty = ground (arith, elem-unprocessed x);
          inside = λ y k. ground (arith, elem-unprocessed y);
          waits = waits_for;
        }

    within : (x : DaemonId) → count x processed ≤ count x to_start
    within x = ground (arith, finished.exact x, elem-eq-count x to_start)

  -- Steps 2 to 4 give an order of the daemons to start, or name the daemons of a knot.
  pub order_levels_lem :
      ((levels : List Ids) × (order_levels all_daemons to_start ≡ ok levels)
        × IsOrder all_daemons to_start levels)
      ⊎ ((ids : Ids) × (order_levels all_daemons to_start ≡ err (circular ids))
          × IsKnot all_daemons to_start ids)
  order_levels_lem =
      let (processed, levels, finished, run) = ran in
      let le = within processed levels finished in
      elim (Bool-cases (length processed == length to_start)) [
        | inl same ↦ inl (
          levels,
          rw same at run,
          record {
            layered = finished.layered;
            members = λ x.
                finished.placed x
                ∙ count-eq_of_length processed to_start le ((==_iff _ _).0 same) x;
          },
        )
        | inr other ↦ inr (
          unprocessed processed to_start,
          rw other at run,
          knot processed levels finished (ground (arith, length-le_of_count processed to_start le)),
        )
      ]
