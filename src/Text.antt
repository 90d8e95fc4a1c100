-- ===== src/Text.antt =====
-- Rust's `str`: the list of its characters, each by its code point. The operations are those of
-- the standard library that the program calls, under their names there.
pub mod Search
pub mod Decimal
pub mod Trim
use Prim.Native.Char.{code}
use pitchfork.Prelude.{
  ℕ, suc, String, ◌≡◌, ◌↔◌, Bool, true, false, ◌&&◌, ◌||◌, Option, none, some, List, [], ◌∷◌, arith,
  ◌==◌, leb, if◌then◌else◌, is_empty,
}

abbrev pub Text : Type 0
Text = List ℕ

abbrev pub codes : String → Text
codes String.[] = []
codes (String.◌∷◌ c s) = code c ∷ codes s

-- `==`
unfoldable pub text_eq : Text → Text → Bool
text_eq [] [] = true
text_eq (a ∷ s) (b ∷ t) = a == b && text_eq s t
text_eq _ _ = false

pub text_eq_iff : (s t : Text) → (text_eq s t ≡ true) ↔ (s ≡ t)
unfolding text_eq
text_eq_iff [] [] = ground arith
text_eq_iff [] (b ∷ t) = ground arith
text_eq_iff (a ∷ s) [] = ground arith
text_eq_iff (a ∷ s) (b ∷ t) = ground (arith, text_eq_iff s t)

-- `<=` of the derived `Ord` of strings: by the first difference, a prefix before its extensions.
unfoldable pub text_le : Text → Text → Bool
text_le [] t = true
text_le (a ∷ s) [] = false
text_le (a ∷ s) (b ∷ t) = let rest = text_le s t in if a == b then rest else leb a b

unfoldable pub strip_prefix : Text → Text → Option Text
strip_prefix s [] = some s
strip_prefix [] (p ∷ pat) = none
strip_prefix (c ∷ s) (p ∷ pat) = let rest = strip_prefix s pat in if c == p then rest else none

-- `starts_with` for a pattern text
abbrev pub starts_with : Text → Text → Bool
starts_with s pat = elim (strip_prefix s pat) [ some _ ↦ true | none ↦ false ]

-- `ends_with` for a pattern character
unfoldable pub ends_with_char : Text → ℕ → Bool
ends_with_char [] c = false
ends_with_char (x ∷ []) c = x == c
ends_with_char (x ∷ y ∷ s) c = ends_with_char (y ∷ s) c

-- `contains` for a pattern text
unfoldable pub contains : Text → Text → Bool
contains [] pat = is_empty pat
contains (c ∷ s) pat = starts_with (c ∷ s) pat || contains s pat

-- `contains` for a pattern character
unfoldable pub contains_char : Text → ℕ → Bool
contains_char [] x = false
contains_char (c ∷ s) x = c == x || contains_char s x

-- `chars().filter(|&c| c == x).count()`
unfoldable pub count_char : Text → ℕ → ℕ
count_char [] x = 0
count_char (c ∷ s) x = let rest = count_char s x in if c == x then suc rest else rest

-- The pieces around the first occurrence of the pattern.
unfoldable pub split_once : Text → Text → Option (Text × Text)
split_once [] pat = elim (strip_prefix [] pat) [ some after ↦ some ([], after) | none ↦ none ]
split_once (c ∷ s) pat =
    let later = split_once s pat in
    elim (strip_prefix (c ∷ s) pat) [
      | some after ↦ some ([], after)
      | none ↦ elim later [ some (before, after) ↦ some (c ∷ before, after) | none ↦ none ]
    ]
