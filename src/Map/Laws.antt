-- ===== src/Map/Laws.antt =====
-- The laws of the maps, each as what a lookup finds.
use pitchfork.Prelude.{
  ◌≡◌, ◌≤◌, refl, Bool, none, some, [], ◌∷◌, arith, All, length, if◌then◌else◌, Bool-cases, inl,
  inr, subst,
}
use pitchfork.Map.{Key, Map, get, insert, remove, modify, retain}

module _ {K V : Type 0} ⦃k : Key K⦄ where
  pub get-insert :
      (x y : K) (v : V) (m : Map K V)
      → get y (insert x v m) ≡ (if k.eq x y then some v else get y m)
  unfolding get insert
  get-insert x y v [] = refl
  get-insert x y v ((z, w) ∷ m) =
      ground (arith, get-insert x y v m, k.eq_iff x y, k.eq_iff z x, k.eq_iff z y)

  pub get-remove :
      (x y : K) (m : Map K V) → get y (remove x m) ≡ (if k.eq x y then none else get y m)
  unfolding get remove
  get-remove x y [] = ground arith
  get-remove x y ((z, w) ∷ m) =
      ground (arith, get-remove x y m, k.eq_iff x y, k.eq_iff z x, k.eq_iff z y)

  pub get-modify :
      (x y : K) (f : V → V) (m : Map K V)
      → get y (modify x f m)
        ≡ (if k.eq x y then elim (get y m) [ some v ↦ some (f v) | none ↦ none ] else get y m)
  unfolding get modify
  get-modify x y f [] = ground arith
  get-modify x y f ((z, w) ∷ m) =
      ground (arith, get-modify x y f m, k.eq_iff x y, k.eq_iff z x, k.eq_iff z y)

  -- Removing what is not there changes nothing.
  pub remove_absent : (x : K) (m : Map K V) → get x m ≡ none → remove x m ≡ m
  unfolding get remove
  remove_absent x [] h = refl
  remove_absent x ((y, w) ∷ m) h = ground (arith, remove_absent x m)

  pub remove-insert : (x : K) (v : V) (m : Map K V) → get x m ≡ none → remove x (insert x v m) ≡ m
  unfolding get remove insert
  remove-insert x v [] h = ground (arith, k.eq_iff x x)
  remove-insert x v ((y, w) ∷ m) h =
      ground (arith, k.eq_iff x x, remove-insert x v m, remove_absent x m)

  pub modify_absent : (x : K) (f : V → V) (m : Map K V) → get x m ≡ none → modify x f m ≡ m
  unfolding get modify
  modify_absent x f [] h = refl
  modify_absent x f ((y, w) ∷ m) h = ground (arith, modify_absent x f m)

  -- Writing twice is writing the second time.
  pub insert-insert : (x : K) (v w : V) (m : Map K V) → insert x w (insert x v m) ≡ insert x w m
  unfolding insert
  insert-insert x v w [] = ground (arith, k.eq_iff x x)
  insert-insert x v w ((y, u) ∷ m) = ground (arith, k.eq_iff x x, insert-insert x v w m)

  -- Every entry has a property.
  abbrev pub Entries : (K → V → Type 0) → Map K V → Type 0
  Entries P m = All (λ e. P e.0 e.1) m

  pub Entries-insert :
      (P : K → V → Type 0) (x : K) (v : V) (m : Map K V)
      → P x v
      → Entries P m
      → Entries P (insert x v m)
  unfolding insert
  Entries-insert P x v [] p h = (p, tt)
  Entries-insert P x v ((y, w) ∷ m) p h = elim (Bool-cases (k.eq y x)) [
    | inl same ↦ rw same (p, h.1)
    | inr other ↦ elim (Bool-cases (k.le x y)) [
      | inl before ↦ rw (other, before) (p, h)
      | inr behind ↦ rw (other, behind) (h.0, Entries-insert P x v m p h.1)
    ]
  ]

  pub Entries-remove :
      (P : K → V → Type 0) (x : K) (m : Map K V) → Entries P m → Entries P (remove x m)
  unfolding remove
  Entries-remove P x [] h = tt
  Entries-remove P x ((y, w) ∷ m) h = elim (Bool-cases (k.eq y x)) [
    | inl same ↦ rw same (Entries-remove P x m h.1)
    | inr other ↦ rw other (h.0, Entries-remove P x m h.1)
  ]

  pub Entries-modify :
      (P : K → V → Type 0) (x : K) (f : V → V) (m : Map K V)
      → ((y : K) (v : V) → P y v → P y (f v))
      → Entries P m
      → Entries P (modify x f m)
  unfolding modify
  Entries-modify P x f [] q h = tt
  Entries-modify P x f ((y, w) ∷ m) q h = elim (Bool-cases (k.eq y x)) [
    | inl same ↦ rw same (q y w h.0, h.1)
    | inr other ↦ rw other (h.0, Entries-modify P x f m q h.1)
  ]

  pub Entries-get :
      (P : K → V → Type 0) (x : K) (m : Map K V) {v : V} → get x m ≡ some v → Entries P m → P x v
  unfolding get
  Entries-get P x [] e h = cc
  Entries-get P x ((y, w) ∷ m) {v} e h = elim (Bool-cases (k.eq y x)) [
    | inl same ↦
        let v_eq : w ≡ v = ground (arith, same, e) in
        subst (λ u. P x u) v_eq (subst (λ z. P z w) ((k.eq_iff y x).0 same) h.0)
    | inr other ↦ Entries-get P x m (ground (arith, other, e)) h.1
  ]

module _ {K V : Type 0} where
  pub length-retain : (p : K → V → Bool) (m : Map K V) → length (retain p m) ≤ length m
  unfolding retain
  length-retain p [] = omega arith
  length-retain p ((y, w) ∷ m) = ground (arith, length-retain p m)

  -- If as many entries are left, nothing was removed.
  pub retain_same :
      (p : K → V → Bool) (m : Map K V) → length (retain p m) ≡ length m → retain p m ≡ m
  unfolding retain
  retain_same p [] h = refl
  retain_same p ((y, w) ∷ m) h = ground (arith, retain_same p m, length-retain p m)

  pub Entries-retain :
      (P : K → V → Type 0) (p : K → V → Bool) (m : Map K V)
      → All (λ e. P e.0 e.1) m
      → All (λ e. P e.0 e.1) (retain p m)
  unfolding retain
  Entries-retain P p [] h = tt
  Entries-retain P p ((y, w) ∷ m) h = elim (Bool-cases (p y w)) [
    | inl kept ↦ rw kept (h.0, Entries-retain P p m h.1)
    | inr gone ↦ rw gone (Entries-retain P p m h.1)
  ]
