-- ===== src/Text/Search.antt =====
-- What the searches of a text find: an occurrence, in terms of the pieces around it.
use pitchfork.Prelude.{
  ℕ, ◌+◌, ◌≡◌, ◌↔◌, refl, ap, true, false, none, some, [], ◌∷◌, ◌++◌, arith, inl, inr, Bool-cases,
  Option-cases,
}
use pitchfork.Text.{
  Text, strip_prefix, ends_with_char, contains, contains_char, count_char, split_once,
}

abbrev pub HasInfix : Text → Text → Type 0
HasInfix pat s = (u : Text) × (v : Text) × (s ≡ u ++ (pat ++ v))

pub strip_prefix-append : (pat v : Text) → strip_prefix (pat ++ v) pat ≡ some v
unfolding strip_prefix
strip_prefix-append [] v = refl
strip_prefix-append (p ∷ pat) v = ground (arith, strip_prefix-append pat v)

pub strip_prefix-eq-some : (s pat v : Text) → strip_prefix s pat ≡ some v → s ≡ pat ++ v
unfolding strip_prefix
strip_prefix-eq-some s [] v h = cc
strip_prefix-eq-some [] (p ∷ pat) v h = cc
strip_prefix-eq-some (c ∷ s) (p ∷ pat) v h = ground (arith, strip_prefix-eq-some s pat v)

pub split_once-eq-some : (s pat u v : Text) → split_once s pat ≡ some (u, v) → s ≡ u ++ (pat ++ v)
unfolding split_once
split_once-eq-some [] pat u v h = elim (Option-cases (strip_prefix [] pat)) [
  | inl e ↦ ground arith
  | inr (w, e) ↦ ground (arith, strip_prefix-eq-some [] pat w)
]
split_once-eq-some (c ∷ s) pat u v h = elim (Option-cases (strip_prefix (c ∷ s) pat)) [
  | inr (w, e) ↦ ground (arith, strip_prefix-eq-some (c ∷ s) pat w)
  | inl e ↦ elim (Option-cases (split_once s pat)) [
    | inl e' ↦ ground arith
    | inr ((a, b), e') ↦ ground (arith, split_once-eq-some s pat a b)
  ]
]

-- `contains` says whether there is an occurrence.
pub contains_sound : (s pat : Text) → contains s pat ≡ true → HasInfix pat s
unfolding contains
contains_sound [] [] h = ([], [], refl)
contains_sound [] (p ∷ pat) h = cc
contains_sound (c ∷ s) pat h = elim (Option-cases (strip_prefix (c ∷ s) pat)) [
  | inr (v, e) ↦ ([], v, strip_prefix-eq-some (c ∷ s) pat v e)
  | inl e ↦ let (u, v, found) = contains_sound s pat (ground arith) in (c ∷ u, v, ap (◌∷◌ c) found)
]

pub contains_complete : (u pat v : Text) → contains (u ++ (pat ++ v)) pat ≡ true
unfolding contains
contains_complete [] [] [] = refl
contains_complete [] [] (c ∷ v) = unfold strip_prefix in refl
contains_complete [] (p ∷ pat) v = ground (arith, strip_prefix-append (p ∷ pat) v)
contains_complete (c ∷ u) pat v = ground (arith, contains_complete u pat v)

pub not_contains_iff : (s pat : Text) → (contains s pat ≡ false) ↔ (¬ HasInfix pat s)
not_contains_iff s pat = (
  λ h (u, v, e). cc (h, e, contains_complete u pat v),
  λ h. elim (Bool-cases (contains s pat)) [
    | inl found ↦ absurd (h (contains_sound s pat found))
    | inr none_found ↦ none_found
  ],
)

pub ends_with_char-snoc : (u : Text) (c : ℕ) → ends_with_char (u ++ c ∷ []) c ≡ true
unfolding ends_with_char
ends_with_char-snoc [] c = ground arith
ends_with_char-snoc (x ∷ []) c = ground arith
ends_with_char-snoc (x ∷ y ∷ u) c = ends_with_char-snoc (y ∷ u) c

pub ends_with_char_sound :
    (s : Text) (c : ℕ) → ends_with_char s c ≡ true → (u : Text) × (s ≡ u ++ c ∷ [])
unfolding ends_with_char
ends_with_char_sound [] c h = cc
ends_with_char_sound (x ∷ []) c h = ([], ground arith)
ends_with_char_sound (x ∷ y ∷ s) c h =
    let (u, e) = ends_with_char_sound (y ∷ s) c h in (x ∷ u, ap (◌∷◌ x) e)

-- A character that the first piece does not hold is found behind it.
pub split_once_char :
    (u v : Text) (c : ℕ)
    → contains_char u c ≡ false
    → split_once (u ++ c ∷ v) (c ∷ []) ≡ some (u, v)
unfolding split_once strip_prefix contains_char
split_once_char [] v c h = ground arith
split_once_char (x ∷ u) v c h = ground (arith, split_once_char u v c)

-- A doubled character is found behind the first piece if that neither holds it doubled nor ends
-- with it: the two could otherwise be found one place earlier.
pub split_once_pair :
    (u v : Text) (c : ℕ)
    → contains u (c ∷ c ∷ []) ≡ false
    → ends_with_char u c ≡ false
    → split_once (u ++ (c ∷ c ∷ v)) (c ∷ c ∷ []) ≡ some (u, v)
unfolding split_once strip_prefix contains ends_with_char
split_once_pair [] v c h k = ground arith
split_once_pair (x ∷ []) v c h k = ground arith
split_once_pair (x ∷ y ∷ u) v c h k = ground (arith, split_once_pair (y ∷ u) v c)

pub contains_char-append :
    (u v : Text) (c : ℕ)
    → contains_char u c ≡ false
    → contains_char v c ≡ false
    → contains_char (u ++ v) c ≡ false
unfolding contains_char
contains_char-append [] v c h k = k
contains_char-append (x ∷ u) v c h k = ground (arith, contains_char-append u v c)

pub count_char-append :
    (u v : Text) (c : ℕ) → count_char (u ++ v) c ≡ count_char u c + count_char v c
unfolding count_char
count_char-append [] v c = ground arith
count_char-append (x ∷ u) v c = ground (arith, count_char-append u v c)

pub count_char-absent : (u : Text) (c : ℕ) → contains_char u c ≡ false → count_char u c ≡ 0
unfolding count_char contains_char
count_char-absent [] c h = refl
count_char-absent (x ∷ u) c h = ground (arith, count_char-absent u c)

pub split_once_char-none : (s : Text) (c : ℕ) → split_once s (c ∷ []) ≡ none → count_char s c ≡ 0
unfolding split_once strip_prefix count_char
split_once_char-none [] c h = refl
split_once_char-none (x ∷ s) c h = ground (arith, split_once_char-none s c)

pub contains_char-middle : (u v : Text) (c : ℕ) → contains_char (u ++ c ∷ v) c ≡ true
unfolding contains_char
contains_char-middle [] v c = ground arith
contains_char-middle (x ∷ u) v c = ground (arith, contains_char-middle u v c)
