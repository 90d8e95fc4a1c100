-- ===== src/Deps/Count.antt =====
-- Lists of identifiers by how often each occurs: membership, freedom of duplicates and sorting are
-- facts on these numbers. The library's `count` goes by the unary numbers.
use pitchfork.Prelude.{
  ℕ, suc, ◌+◌, ◌≤◌, ◌<◌, ◌≡◌, inl, inr, Bool, true, false, [], ◌∷◌, ◌++◌, arith, refl, ltb,
  if◌then◌else◌, length, keep, Bool-cases,
}
use pitchfork.DaemonId.{DaemonId, id_eq, id_eq_iff}
use pitchfork.Deps.{Ids, elem, sort, insert_sorted}

unfoldable pub count : DaemonId → Ids → ℕ
count x [] = 0
count x (y ∷ ys) = let rest = count x ys in if id_eq y x then suc rest else rest

pub elem-eq-count : (x : DaemonId) (l : Ids) → elem x l ≡ ltb 0 (count x l)
unfolding elem count
elem-eq-count x [] = refl
elem-eq-count x (y ∷ ys) = ground (arith, elem-eq-count x ys)

pub elem→count : (x : DaemonId) (l : Ids) → elem x l ≡ true → 0 < count x l
elem→count x l h = ground (arith, elem-eq-count x l)

pub count→elem : (x : DaemonId) (l : Ids) → 0 < count x l → elem x l ≡ true
count→elem x l h = ground (arith, elem-eq-count x l)

pub count-absent : (x : DaemonId) (l : Ids) → elem x l ≡ false → count x l ≡ 0
count-absent x l h = ground (arith, elem-eq-count x l)

pub count-append : (x : DaemonId) (xs ys : Ids) → count x (xs ++ ys) ≡ count x xs + count x ys
unfolding count
count-append x [] ys = omega arith
count-append x (z ∷ xs) ys = ground (arith, count-append x xs ys)

count-insert_sorted :
    (le : DaemonId → DaemonId → Bool) (x y : DaemonId) (l : Ids)
    → count x (insert_sorted le y l) ≡ count x (y ∷ l)
unfolding count insert_sorted
count-insert_sorted le x y [] = refl
count-insert_sorted le x y (z ∷ l) = ground (arith, count-insert_sorted le x y l)

pub count-sort :
    (le : DaemonId → DaemonId → Bool) (x : DaemonId) (l : Ids) → count x (sort le l) ≡ count x l
unfolding count sort
count-sort le x [] = refl
count-sort le x (y ∷ l) = ground (arith, count-insert_sorted le x y (sort le l), count-sort le x l)

pub count-keep :
    (p : DaemonId → Bool) (x : DaemonId) (l : Ids)
    → count x (keep p l) ≡ (if p x then count x l else 0)
unfolding count
count-keep p x [] = ground arith
count-keep p x (y ∷ l) = elim (Bool-cases (id_eq y x)) [
  | inl e ↦ ground (arith, count-keep p x l, id_eq_iff y x)
  | inr e ↦ ground (arith, count-keep p x l)
]

-- No identifier occurs twice.
abbrev pub IsSetOf : Ids → Type 0
IsSetOf l = (x : DaemonId) → count x l ≤ 1

unfoldable pub erase : DaemonId → Ids → Ids
erase x [] = []
erase x (y ∷ ys) = let rest = erase x ys in if id_eq y x then ys else y ∷ rest

length-erase : (x : DaemonId) (l : Ids) → 0 < count x l → length (erase x l) + 1 ≡ length l
unfolding count erase
length-erase x [] h = absurd (omega arith)
length-erase x (y ∷ l) h = ground (arith, length-erase x l)

count-erase :
    (x y : DaemonId) (l : Ids) → 0 < count x l → count y (erase x l) + count y (x ∷ []) ≡ count y l
unfolding count erase
count-erase x y [] h = absurd (omega arith)
count-erase x y (z ∷ l) h =
    ground (arith, count-erase x y l, id_eq_iff z x, id_eq_iff z y, id_eq_iff x y)

pub count_self : (x : DaemonId) (l : Ids) → 0 < count x (x ∷ l)
unfolding count
count_self x l = ground (arith, id_eq_iff x x)

-- A list that holds nothing more often than another is no longer.
pub length-le_of_count :
    (xs ys : Ids) → ((x : DaemonId) → count x xs ≤ count x ys) → length xs ≤ length ys
length-le_of_count [] ys h = omega arith
length-le_of_count (x ∷ xs) ys h =
    let there : 0 < count x ys = omega (arith, h x, count_self x xs) in
    omega (
      arith,
      length-erase x ys there,
      length-le_of_count xs (erase x ys)
          λ y. omega (arith, h y, count-erase x y ys there, count-append y (x ∷ []) xs),
    )

count-cons-le :
    (x y : DaemonId) (xs ys : Ids)
    → count x xs < count x ys
    → count y xs ≤ count y ys
    → count y (x ∷ xs) ≤ count y ys
unfolding count
count-cons-le x y xs ys more h = ground (arith, id_eq_iff x y)

-- If both are as long, they hold the same.
pub count-eq_of_length :
    (xs ys : Ids)
    → ((x : DaemonId) → count x xs ≤ count x ys)
    → length xs ≡ length ys
    → (x : DaemonId) → count x xs ≡ count x ys
count-eq_of_length xs ys h e x = elim (Bool-cases (ltb (count x xs) (count x ys))) [
  | inr f ↦ ground (arith, h x)
  | inl f ↦ absurd (
      omega
        (arith, length-le_of_count (x ∷ xs) ys (λ y. count-cons-le x y xs ys (ground arith) (h y))))
]

pub id_eq_refl : (x : DaemonId) → id_eq x x ≡ true
id_eq_refl x = (id_eq_iff x x).1 refl

pub elem_self : (x : DaemonId) (l : Ids) → elem x (x ∷ l) ≡ true
unfolding elem
elem_self x l = rw id_eq_refl refl

pub elem-tail : (x y : DaemonId) (l : Ids) → elem x l ≡ true → elem x (y ∷ l) ≡ true
unfolding elem
elem-tail x y l h = ground arith
