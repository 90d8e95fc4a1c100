-- ===== src/Migration/Fresh.antt =====
-- The search for a free key in `migrate_old_format` of src/state_file.rs.
use pitchfork.Prelude.{
  ℕ, zero, suc, ◌+◌, ◌≤◌, ◌<◌, ◌^◌, ◌≡◌, refl, sym, ◌∙◌, ap, Bool, true, false, none, [], ◌∷◌, ◌++◌,
  arith, Bool-cases, inl, inr, if◌then◌else◌, length,
}
use pitchfork.Text.{Text, codes, text_eq, text_eq_iff}
use pitchfork.Text.Decimal.{to_string, to_string_injective}
use pitchfork.DaemonId.{dash}
use pitchfork.Map.{Map, get, remove, is_some, text_key}
use pitchfork.Map.Laws.{get-remove}
use pitchfork.Migration.{legacy, numbered, base_of, contains_key, search, new_key}

prefix_injective : (p x y : Text) → p ++ x ≡ p ++ y → x ≡ y
prefix_injective [] x y h = h
prefix_injective (c ∷ p) x y h = prefix_injective p x y (ground (arith, h))

numbered_injective :
    (base : Text) (m n : ℕ) → m < 2 ^ 32 → n < 2 ^ 32 → numbered base m ≡ numbered base n → m ≡ n
numbered_injective base m n p q h = to_string_injective m n p q (
    prefix_injective (dash ∷ []) _ _
      (prefix_injective base _ _ (prefix_injective (codes "legacy/") _ _ h)))

module _ {V : Type 0} where
  length-remove : (x : Text) (m : Map Text V) → length (remove x m) ≤ length m
  unfolding remove
  length-remove x [] = omega arith
  length-remove x ((y, w) ∷ m) = ground (arith, length-remove x m)

  pub length-remove_found :
      (x : Text) (m : Map Text V) → contains_key x m ≡ true → length (remove x m) < length m
  unfolding remove get
  length-remove_found x [] h = cc
  length-remove_found x ((y, w) ∷ m) h = ground (arith, length-remove x m, length-remove_found x m)

  apart :
      (base : Text) (n j : ℕ) (m : Map Text V)
      → n < j
      → j < 2 ^ 32
      → get (numbered base j) (remove (numbered base n) m) ≡ get (numbered base j) m
  apart base n j m h b = elim (Bool-cases (text_eq (numbered base n) (numbered base j))) [
    | inl same ↦ absurd (
        omega (
          arith,
          h,
          numbered_injective base n j (omega arith) b
              ((text_eq_iff (numbered base n) (numbered base j)).0 same),
        ))
    | inr other ↦
        get-remove (numbered base n) (numbered base j) m
        ∙ ap (λ t. if t then none else get (numbered base j) m) other
  ]

  -- The candidates from `j` on are found as well when an earlier one is taken out.
  search-remove :
      (fuel : ℕ) (base : Text) (n j : ℕ) (m : Map Text V)
      → n < j
      → j + fuel < 2 ^ 32
      → search fuel base j (remove (numbered base n) m) ≡ search fuel base j m
  unfolding search
  search-remove zero base n j m h b = refl
  search-remove (suc fuel) base n j m h b =
      rw
        (
          apart base n j m h (omega arith),
          search-remove fuel base n (j + 1) m (omega arith) (omega arith),
        )
        refl

  -- It returns one of the candidates.
  search-numbered :
      (fuel : ℕ) (base : Text) (n : ℕ) (m : Map Text V)
      → (j : ℕ) × (search fuel base n m ≡ numbered base j) × (n ≤ j) × (j ≤ n + fuel)
  unfolding search
  search-numbered zero base n m = (n, refl, omega arith, omega arith)
  search-numbered (suc fuel) base n m = elim (Bool-cases (contains_key (numbered base n) m)) [
    | inl taken ↦
        let (j, e, low, high) = search-numbered fuel base (n + 1) m in
        rw taken (j, e, omega arith, omega arith)
    | inr free ↦ rw free (n, refl, omega arith, omega arith)
  ]

  search-fresh :
      (fuel : ℕ) (base : Text) (n : ℕ) (m : Map Text V)
      → length m < fuel
      → n + fuel < 2 ^ 32
      → contains_key (search fuel base n m) m ≡ false
  unfolding search
  search-fresh zero base n m h b = absurd (omega arith)
  search-fresh (suc fuel) base n m h b = elim (Bool-cases (contains_key (numbered base n) m)) [
    | inr free ↦
        ap (λ t. contains_key (if t then search fuel base (n + 1) m else numbered base n) m) free
        ∙ free
    | inl taken ↦
        let (j, e, low, high) = search-numbered fuel base (n + 1) m in
        let rest =
          search-fresh fuel base (n + 1) (remove (numbered base n) m)
            (omega (arith, h, length-remove_found (numbered base n) m taken)) (omega arith) in
        let at_j : contains_key (numbered base j) (remove (numbered base n) m) ≡ false =
          ap (λ k. contains_key k (remove (numbered base n) m))
            (sym (search-remove fuel base n (n + 1) m (omega arith) (omega arith) ∙ e))
          ∙ rest in
        ap (λ t. contains_key (if t then search fuel base (n + 1) m else numbered base n) m) taken
        ∙ ap (λ k. contains_key k m) e
        ∙ ap is_some (sym (apart base n j m (omega arith) (omega arith)))
        ∙ at_j
  ]

  -- The key of a migrated daemon is not in the table: the loop ends, if the table has fewer than
  -- 2 ^ 32 - 3 daemons.
  pub new_key-fresh :
      (key : Text) (m : Map Text V) → length m + 3 < 2 ^ 32 → contains_key (new_key key m) m ≡ false
  unfolding new_key
  new_key-fresh key m h = elim (Bool-cases (contains_key (legacy key) m)) [
    | inr free ↦
        ap (λ t. contains_key (choose t (contains_key (legacy (base_of key)) m)) m) free ∙ free
    | inl taken ↦
        ap (λ t. contains_key (choose t (contains_key (legacy (base_of key)) m)) m) taken
        ∙ elim (Bool-cases (contains_key (legacy (base_of key)) m)) [
          | inr free ↦ ap (λ t. contains_key (choose true t) m) free ∙ free
          | inl taken_too ↦
              ap (λ t. contains_key (choose true t) m) taken_too
              ∙ search-fresh (suc (length m)) (base_of key) 2 m (omega arith) (omega (arith, h))
        ]
  ]
    where
      choose : Bool → Bool → Text
      choose t u =
          if t
          then (if u then search (suc (length m)) (base_of key) 2 m else legacy (base_of key))
          else legacy key

  -- It is in the namespace "legacy".
  pub new_key-legacy : (key : Text) (m : Map Text V) → (name : Text) × (new_key key m ≡ legacy name)
  unfolding new_key
  new_key-legacy key m = elim (Bool-cases (contains_key (legacy key) m)) [
    | inr free ↦ rw free (key, refl)
    | inl taken ↦ elim (Bool-cases (contains_key (legacy (base_of key)) m)) [
      | inr free ↦ rw (taken, free) (base_of key, refl)
      | inl taken_too ↦
          let (j, e, _, _) = search-numbered (suc (length m)) (base_of key) 2 m in
          rw (taken, taken_too) (base_of key ++ dash ∷ to_string j, e)
    ]
  ]
