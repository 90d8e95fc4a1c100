-- ===== src/DaemonId/Component.antt =====
-- Which texts `validate_component` of src/daemon_id.rs accepts, said without its tests.
use pitchfork.Prelude.{
  ℕ, ◌≤◌, ◌≡◌, ◌≢◌, ◌↔◌, ◌⊎◌, inl, inr, true, false, [], ◌∷◌, ◌++◌, arith, refl, Bool-cases,
  is_empty, is_empty_ne, all, All, ok,
}
use pitchfork.Text.{
  Text, text_eq, text_eq_iff, starts_with, ends_with_char, contains, contains_char, strip_prefix,
}
use pitchfork.Text.Search.{HasInfix, not_contains_iff, ends_with_char-snoc, ends_with_char_sound}
use pitchfork.DaemonId.{
  slash, dash, dot, backslash, double_dash, double_dot, is_component_char, validate_component,
}

abbrev pub IsComponentChar : ℕ → Type 0
IsComponentChar c =
    ((b'0' ≤ c) × (c ≤ b'9'))
    ⊎ ((b'A' ≤ c) × (c ≤ b'Z'))
    ⊎ ((b'a' ≤ c) × (c ≤ b'z'))
    ⊎ (c ≡ b'_')
    ⊎ (c ≡ dash)
    ⊎ (c ≡ dot)

-- A namespace or a name: ASCII letters, digits, `_`, `-` and `.`, at least one, with no ".." and no
-- "--" in it, no dash at either end, and not the one text ".".
pub record IsComponent (s : Text) : Type 0 where
  pub nonempty : s ≢ []
  pub chars : All IsComponentChar s
  pub no_parent_dir : ¬ HasInfix double_dot s
  pub no_double_dash : ¬ HasInfix double_dash s
  pub no_leading_dash : (u : Text) → s ≢ dash ∷ u
  pub no_trailing_dash : (u : Text) → s ≢ u ++ dash ∷ []
  pub not_dot : s ≢ dot ∷ []

is_component_char_iff : (c : ℕ) → (is_component_char c ≡ true) ↔ IsComponentChar c
unfolding is_component_char
is_component_char_iff c = (λ h. ground arith, λ h. ground arith)

all_chars_iff : (s : Text) → (all is_component_char s ≡ true) ↔ All IsComponentChar s
all_chars_iff [] = (λ _. tt, λ _. refl)
all_chars_iff (c ∷ s) = ground (arith, is_component_char_iff c, all_chars_iff s)

chars-absent :
    (s : Text) (c : ℕ)
    → is_component_char c ≡ false
    → all is_component_char s ≡ true
    → contains_char s c ≡ false
unfolding contains_char
chars-absent [] c e h = refl
chars-absent (x ∷ s) c e h = ground (arith, chars-absent s c)

starts_with-dash : (s : Text) → starts_with s (dash ∷ []) ≡ false ↔ ((u : Text) → s ≢ dash ∷ u)
unfolding strip_prefix
starts_with-dash [] = ((λ _ u e. cc), λ _. refl)
starts_with-dash (c ∷ s) = ((λ h u e. ground arith), λ h. ground (arith, h s))

ends_with_dash : (s : Text) → ends_with_char s dash ≡ false ↔ ((u : Text) → s ≢ u ++ dash ∷ [])
ends_with_dash s = (
  λ h u e. cc (h, e, ends_with_char-snoc u dash),
  λ h. elim (Bool-cases (ends_with_char s dash)) [
    | inl found ↦ let (u, e) = ends_with_char_sound s dash found in absurd (h u e)
    | inr fails ↦ fails
  ],
)

-- The tests of `validate_component`, all of them passed.
pub record Passes (s : Text) : Type 0 where
  pub filled : is_empty s ≡ false
  pub slashes : contains_char s slash ≡ false
  pub backslashes : contains_char s backslash ≡ false
  pub parents : contains s double_dot ≡ false
  pub reserved : contains s double_dash ≡ false
  pub leading : starts_with s (dash ∷ []) ≡ false
  pub trailing : ends_with_char s dash ≡ false
  pub spaces : contains_char s b' ' ≡ false
  pub dots : text_eq s (dot ∷ []) ≡ false
  pub allowed : all is_component_char s ≡ true

pub Passes-iff : (s label : Text) → (validate_component s label ≡ ok tt) ↔ Passes s
unfolding validate_component
Passes-iff s label = (λ h. ground arith, λ h. ground arith)

Passes→IsComponent : (s : Text) → Passes s → IsComponent s
Passes→IsComponent s p = record {
  nonempty = λ e. ground arith;
  chars = (all_chars_iff s).0 p.allowed;
  no_parent_dir = (not_contains_iff s double_dot).0 p.parents;
  no_double_dash = (not_contains_iff s double_dash).0 p.reserved;
  no_leading_dash = (starts_with-dash s).0 p.leading;
  no_trailing_dash = (ends_with_dash s).0 p.trailing;
  not_dot = λ e. ground (arith, text_eq_iff s (dot ∷ []));
}

pub IsComponent→Passes : (s : Text) → IsComponent s → Passes s
unfolding is_component_char
IsComponent→Passes s h =
    let allowed = (all_chars_iff s).1 h.chars in
    record {
      filled = is_empty_ne s h.nonempty;
      slashes = chars-absent s slash refl allowed;
      backslashes = chars-absent s backslash refl allowed;
      parents = (not_contains_iff s double_dot).1 h.no_parent_dir;
      reserved = (not_contains_iff s double_dash).1 h.no_double_dash;
      leading = (starts_with-dash s).1 h.no_leading_dash;
      trailing = (ends_with_dash s).1 h.no_trailing_dash;
      spaces = chars-absent s b' ' refl allowed;
      dots = ground (arith, text_eq_iff s (dot ∷ []), h.not_dot);
      allowed = allowed;
    }

-- A component is accepted exactly when it is well formed, whatever it is called in the errors.
pub validate_component_iff : (s label : Text) → (validate_component s label ≡ ok tt) ↔ IsComponent s
validate_component_iff s label = (
  λ h. Passes→IsComponent s ((Passes-iff s label).0 h),
  λ h. (Passes-iff s label).1 (IsComponent→Passes s h),
)
