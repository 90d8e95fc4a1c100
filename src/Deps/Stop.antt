-- ===== src/Deps/Stop.antt =====
-- Levels in reverse, as `compute_reverse_stop_order_with_config` of src/deps.rs stops them: what they
-- hold, and in which order.
use mathlib.Core.List.{reverse, reverse-cons}
use pitchfork.Prelude.{
  ◌+◌, ◌≤◌, ◌≡◌, Bool, true, false, List, [], ◌∷◌, ◌++◌, arith, refl, ◌∙◌, append-nil, append_assoc,
  is_empty, keep, if◌then◌else◌,
}
use pitchfork.DaemonId.{DaemonId}
use pitchfork.Config.{Daemons}
use pitchfork.Deps.{Ids, elem}
use pitchfork.Deps.StopOrder.{stop_levels, adhoc_level}
use pitchfork.Deps.Count.{count, count-append, count-keep, elem-eq-count, elem→count}
use pitchfork.Deps.Nodes.{depends_of}
use pitchfork.Deps.Loop.{flat, IsLayered}
use pitchfork.Deps.Queue.{elem-append}

pub count-flat_append :
    (x : DaemonId) (ls ms : List Ids)
    → count x (flat (ls ++ ms)) ≡ count x (flat ls) + count x (flat ms)
unfolding count
count-flat_append x [] ms = omega arith
count-flat_append x (l ∷ ls) ms = omega (
  arith,
  count-flat_append x ls ms,
  count-append x l (flat (ls ++ ms)),
  count-append x l (flat ls),
)

pub count-flat-reverse :
    (x : DaemonId) (ls : List Ids) → count x (flat (reverse ls)) ≡ count x (flat ls)
unfolding count
count-flat-reverse x [] = refl
count-flat-reverse x (l ∷ ls) = rw reverse-cons (
    omega (
      arith,
      count-flat_append x (reverse ls) (l ∷ []),
      count-flat-reverse x ls,
      count-append x l (flat ls),
      count-append x l [],
    ))

count-flat_filtered :
    (x : DaemonId) (filtered : Ids) (rest : List Ids)
    → count x (flat (if is_empty filtered then rest else filtered ∷ rest))
      ≡ count x filtered + count x (flat rest)
unfolding count
count-flat_filtered x [] rest = omega arith
count-flat_filtered x (id ∷ ids) rest = count-append x (id ∷ ids) (flat rest)

pub count-stop_levels :
    (x : DaemonId) (active : Ids) (ls : List Ids)
    → count x (flat (stop_levels active ls)) ≡ (if elem x active then count x (flat ls) else 0)
unfolding stop_levels count
count-stop_levels x active [] = ground arith
count-stop_levels x active (l ∷ ls) =
    count-flat_filtered x (keep (λ id. elem id active) l) (stop_levels active ls)
    ∙ ground (
      arith,
      count-keep (λ id. elem id active) x l,
      count-stop_levels x active ls,
      count-append x l (flat ls),
    )

pub count-adhoc_level : (x : DaemonId) (ids : Ids) → count x (flat (adhoc_level ids)) ≡ count x ids
unfolding count
count-adhoc_level x [] = refl
count-adhoc_level x (id ∷ ids) = rw append-nil refl

-- Stopping goes against the dependencies: what a daemon of a level depends on is in no level before
-- it and not in its own.
abbrev pub IsShutdown : Daemons → Ids → List Ids → Type 0
IsShutdown all_daemons seen [] = Unit
IsShutdown all_daemons seen (level ∷ levels) =
    ((id d : DaemonId)
      → elem id level ≡ true
      → elem d (depends_of all_daemons id) ≡ true
      → elem d (seen ++ level) ≡ false)
    × IsShutdown all_daemons (seen ++ level) levels

IsShutdown-snoc :
    (all_daemons : Daemons) (seen : Ids) (ls : List Ids) (l : Ids)
    → IsShutdown all_daemons seen ls
    → ((id d : DaemonId)
        → elem id l ≡ true
        → elem d (depends_of all_daemons id) ≡ true
        → elem d (seen ++ (flat ls ++ l)) ≡ false)
    → IsShutdown all_daemons seen (ls ++ l ∷ [])
IsShutdown-snoc all_daemons seen [] l h k = (k, tt)
IsShutdown-snoc all_daemons seen (m ∷ ls) l h k = (
  h.0,
  IsShutdown-snoc all_daemons (seen ++ m) ls l h.1
      (λ id d p q. simp append_assoc (simp append_assoc at (k id d p q))),
)

not_stopped :
    (all_daemons : Daemons) (before l : Ids) (ls : List Ids) (d : DaemonId)
    → count d before + count d (flat (l ∷ ls)) ≤ 1
    → elem d before ≡ true
    → elem d (flat (reverse ls) ++ l) ≡ false
not_stopped all_daemons before l ls d once m = ground (
  arith,
  elem→count d before m,
  elem-eq-count d (flat (reverse ls) ++ l),
  count-append d (flat (reverse ls)) l,
  count-flat-reverse d ls,
  count-append d l (flat ls),
)

-- Levels that start in order, each daemon in one of them, stop in the reverse order.
pub IsShutdown-reverse :
    (all_daemons : Daemons) (before : Ids) (ls : List Ids)
    → ((x : DaemonId) → count x before + count x (flat ls) ≤ 1)
    → IsLayered all_daemons before ls
    → IsShutdown all_daemons [] (reverse ls)
IsShutdown-reverse all_daemons before [] once h = tt
IsShutdown-reverse all_daemons before (l ∷ ls) once h = rw reverse-cons (
    IsShutdown-snoc all_daemons [] (reverse ls) l
      (IsShutdown-reverse all_daemons (before ++ l) ls
        (λ x. omega (arith, once x, count-append x before l, count-append x l (flat ls))) h.1)
      (λ id d m n. not_stopped all_daemons before l ls d (once d) (h.0 id d m n)))

pub elem-keep :
    (x : DaemonId) (p : DaemonId → Bool) (l : Ids)
    → elem x (keep p l) ≡ true
    → (p x ≡ true) × (elem x l ≡ true)
elem-keep x p l h = ground (arith, elem-eq-count x (keep p l), elem-eq-count x l, count-keep p x l)

elem-absent_append :
    (d : DaemonId) (xs ys xs' ys' : Ids)
    → (elem d xs' ≡ true → elem d xs ≡ true)
    → (elem d ys' ≡ true → elem d ys ≡ true)
    → elem d (xs ++ ys) ≡ false
    → elem d (xs' ++ ys') ≡ false
elem-absent_append d xs ys xs' ys' f g h =
    ground (arith, elem-append d xs ys, elem-append d xs' ys')

-- Leaving daemons out keeps the order.
pub IsShutdown-stop_levels :
    (all_daemons : Daemons) (active seen seen' : Ids) (ls : List Ids)
    → ((x : DaemonId) → elem x seen' ≡ true → elem x seen ≡ true)
    → IsShutdown all_daemons seen ls
    → IsShutdown all_daemons seen' (stop_levels active ls)
unfolding stop_levels
IsShutdown-stop_levels all_daemons active seen seen' [] sub h = tt
IsShutdown-stop_levels all_daemons active seen seen' (l ∷ ls) sub h =
    add (keep (λ id. elem id active) l) (λ x m. (elem-keep x (λ id. elem id active) l m).1)
      (λ next f. IsShutdown-stop_levels all_daemons active (seen ++ l) next ls f h.1)
  where
    add :
        (filtered : Ids)
        → ((x : DaemonId) → elem x filtered ≡ true → elem x l ≡ true)
        → ((next : Ids)
            → ((x : DaemonId) → elem x next ≡ true → elem x (seen ++ l) ≡ true)
            → IsShutdown all_daemons next (stop_levels active ls))
        → IsShutdown all_daemons seen'
            (if is_empty filtered then stop_levels active ls else filtered ∷ stop_levels active ls)
    add [] within rest = rest seen' (λ x m. ground (arith, sub x, elem-append x seen l))
    add (id ∷ ids) within rest = (
      λ x d m n.
          elem-absent_append d seen l seen' (id ∷ ids) (sub d) (within d) (h.0 x d (within x m) n),
      rest (seen' ++ id ∷ ids) (λ x m.
          ground (arith, sub x, within x, elem-append x seen l, elem-append x seen' (id ∷ ids))),
    )

-- So does stopping others first, on which nothing depends.
pub IsShutdown-after :
    (all_daemons : Daemons) (before seen : Ids) (ls : List Ids)
    → ((x d : DaemonId)
        → elem x (flat ls) ≡ true
        → elem d (depends_of all_daemons x) ≡ true
        → elem d before ≡ false)
    → IsShutdown all_daemons seen ls
    → IsShutdown all_daemons (before ++ seen) ls
IsShutdown-after all_daemons before seen [] free h = tt
IsShutdown-after all_daemons before seen (l ∷ ls) free h = (
  λ x d m n. ground (
    arith,
    elem-append d (before ++ seen) l,
    elem-append d before seen,
    elem-append d seen l,
    h.0 x d m n,
    free x d (ground (arith, elem-append x l (flat ls))) n,
  ),
  rw append_assoc (
      IsShutdown-after all_daemons before (seen ++ l) ls
        (λ x d m n. free x d (ground (arith, elem-append x l (flat ls))) n) h.1),
)
