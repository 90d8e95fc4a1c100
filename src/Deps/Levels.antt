-- ===== src/Deps/Levels.antt =====
-- Step 3 of `resolve_dependencies` in src/deps.rs: the invariant of the loop over one level.
use pitchfork.Prelude.{
  ℕ, ◌+◌, ◌*◌, ◌≤◌, ◌≡◌, true, false, ◌&&◌, Option, some, [], ◌∷◌, arith, refl, ap, ◌∙◌, ◌==◌,
  if◌then◌else◌, ok, Bool-cases, inl, inr,
}
use pitchfork.DaemonId.{DaemonId, id_eq_iff}
use pitchfork.Config.{Daemons}
use pitchfork.Deps.{Ids, elem, Kahn, release, process_level}
use pitchfork.Deps.Count.{count, count_self, elem-eq-count, elem→count, count-absent, IsSetOf}
use pitchfork.Deps.Edges.{degree_of, edge_count}
use pitchfork.Deps.Nodes.{pending, depends_of}
use pitchfork.Deps.Release.{fires, release_lem}

pub pending-eq_zero :
    (to_start processed deps : Ids) (d : DaemonId)
    → pending to_start processed deps ≡ 0
    → elem d deps ≡ true
    → elem d to_start ≡ true
    → elem d processed ≡ true
unfolding pending elem
pending-eq_zero s p [] d h m n = cc
pending-eq_zero s p (x ∷ deps) d h m n = ground (arith, pending-eq_zero s p deps d, id_eq_iff x d)

count-le-pending :
    (to_start processed deps : Ids) (d : DaemonId)
    → elem d to_start ≡ true
    → elem d processed ≡ false
    → count d deps ≤ pending to_start processed deps
unfolding pending count
count-le-pending s p [] d m n = omega arith
count-le-pending s p (x ∷ deps) d m n = ground (arith, count-le-pending s p deps d, id_eq_iff x d)

pending-cons :
    (to_start processed deps : Ids) (d : DaemonId)
    → elem d to_start ≡ true
    → elem d processed ≡ false
    → pending to_start (d ∷ processed) deps + count d deps ≡ pending to_start processed deps
unfolding pending count elem
pending-cons s p [] d m n = omega arith
pending-cons s p (x ∷ deps) d m n =
    ground (arith, pending-cons s p deps d, id_eq_iff x d, id_eq_iff d x)

module _ (all_daemons : Daemons) (to_start : Ids) where
  -- A daemon to start, all of whose dependencies are processed.
  abbrev pub ready : Ids → DaemonId → ℕ
  ready processed x =
      if elem x to_start && degree_of all_daemons to_start processed x == 0 then 1 else 0

  -- The degrees count what is not processed yet; and what is processed, in the level at hand or in
  -- the next one, each once, are the daemons that are ready.
  pub record Inv (level : Ids) (k : Kahn) : Type 0 where
    pub degrees :
        (x : DaemonId)
        → elem x to_start ≡ true
        → k.in_degree x ≡ some (degree_of all_daemons to_start k.processed x)
    pub counted :
        (x : DaemonId)
        → count x k.processed + count x level + count x k.next_level ≡ ready k.processed x

  abbrev pub Adjacent : (DaemonId → Option Ids) → Type 0
  Adjacent dependents =
      (d : DaemonId)
      → elem d to_start ≡ true
      → (ids : Ids) × (dependents d ≡ some ids)
        × ((x : DaemonId) → count x ids ≡ count x to_start * edge_count all_daemons d x)

  module _ (set : IsSetOf to_start) (id : DaemonId) (ids : Ids) (k : Kahn)
      (inv : Inv (id ∷ ids) k) where
    first_once : (count id k.processed ≡ 0) × (ready k.processed id ≡ 1)
    first_once = ground (arith, inv.counted id, count_self id ids)

    first_ready : elem id to_start ≡ true
    first_ready = ground (arith, first_once.1)

    first_new : elem id k.processed ≡ false
    first_new = ground (arith, first_once.0, elem-eq-count id k.processed)

    -- A daemon to start is there once, and any other is no dependent.
    edges_to :
        (l : Ids) (x : DaemonId)
        → count x l ≡ count x to_start * edge_count all_daemons id x
        → count x l ≡ (if elem x to_start then edge_count all_daemons id x else 0)
    edges_to l x e = elim (Bool-cases (elem x to_start)) [
      | inl m ↦
          let one : count x to_start ≡ 1 = omega (arith, set x, elem→count x to_start m) in
          rw (m, e, one) (omega arith)
      | inr n ↦ rw (n, e, count-absent x to_start n) (omega arith)
    ]

    degree_after :
        (x : DaemonId)
        → degree_of all_daemons to_start (id ∷ k.processed) x + edge_count all_daemons id x
          ≡ degree_of all_daemons to_start k.processed x
    degree_after x =
        pending-cons to_start k.processed (depends_of all_daemons x) id first_ready first_new

    enough :
        (x : DaemonId) → edge_count all_daemons id x ≤ degree_of all_daemons to_start k.processed x
    enough x =
        count-le-pending to_start k.processed (depends_of all_daemons x) id first_ready first_new

    counted_after :
        (x : DaemonId) (edges next : ℕ)
        → edges ≡ (if elem x to_start then edge_count all_daemons id x else 0)
        → next ≡ count x k.next_level + fires (degree_of all_daemons to_start k.processed x) edges
        → count x (id ∷ k.processed) + count x ids + next ≡ ready (id ∷ k.processed) x
    unfolding count
    counted_after x edges next e h = ground (arith, inv.counted x, degree_after x)

    process_one :
        (l : Ids)
        → ((x : DaemonId) → count x l ≡ count x to_start * edge_count all_daemons id x)
        → (r : (DaemonId → Option ℕ) × Ids) × (release l k.in_degree k.next_level ≡ ok r)
          × Inv ids (record { in_degree = r.0; processed = id ∷ k.processed; next_level = r.1 })
    process_one l e =
        let (r, run, out) =
          release_lem to_start l (degree_of all_daemons to_start k.processed) k.in_degree
            k.next_level (λ x m. ground (arith, edges_to l x (e x), elem→count x l m))
            (λ x. ground (arith, edges_to l x (e x), enough x)) inv.degrees in
        (
          r,
          run,
          record {
            degrees = λ x m.
                out.degrees x m ∙ ap some (ground (arith, edges_to l x (e x), degree_after x));
            counted =
                λ x. counted_after x (count x l) (count x r.1) (edges_to l x (e x)) (out.freed x);
          },
        )

  -- The loop over a level takes every daemon of it, and meets no error.
  pub process_level_lem :
      (set : IsSetOf to_start) {dependents : DaemonId → Option Ids} (adjacent : Adjacent dependents)
      (level : Ids) (k : Kahn)
      → Inv level k
      → (k' : Kahn) × (process_level dependents level k ≡ ok k')
        × Inv [] k'
        × ((x : DaemonId) → count x k'.processed ≡ count x k.processed + count x level)
  unfolding process_level count
  process_level_lem set adjacent [] k inv = (k, refl, inv, λ x. omega arith)
  process_level_lem set adjacent (id ∷ ids) k inv =
      let (l, found, e) = adjacent id (first_ready set id ids k inv) in
      let (r, run, inv₁) = process_one set id ids k inv l e in
      let (k', rest, inv', c) =
        process_level_lem set adjacent ids
          (record { in_degree = r.0; processed = id ∷ k.processed; next_level = r.1 }) inv₁ in
      (k', rw (found, process_level) (rw run rest), inv', λ x. c x ∙ ground arith)
