-- ===== src/Autostop/Within.antt =====
-- `is_within` of src/supervisor/autostop.rs on paths that share their representation.
use pitchfork.Prelude.{
  ◌≡◌, refl, sym, ◌∙◌, ap, true, false, Option, List, [], ◌∷◌, ◌++◌, arith, append_assoc, is_empty,
}
use pitchfork.Text.{Text, text_eq_iff}
use pitchfork.DaemonId.{slash}
use pitchfork.Config.{FilePath}
use pitchfork.Autostop.{
  segments, components, root_of, is_prefix, path_starts_with, is_within, dirs_overlap,
}

segments-append :
    (name xs ys : Text) → segments name (xs ++ slash ∷ ys) ≡ segments name xs ++ segments [] ys
unfolding segments
segments-append [] [] ys = refl
segments-append (n ∷ name) [] ys = refl
segments-append name (c ∷ xs) ys =
    ground (arith, segments-append [] xs ys, segments-append (name ++ c ∷ []) xs ys)

is_prefix-append : (xs ys : List Text) → is_prefix xs (xs ++ ys) ≡ true
unfolding is_prefix
is_prefix-append [] ys = refl
is_prefix-append (x ∷ xs) ys = ground (arith, text_eq_iff x x, is_prefix-append xs ys)

components-append :
    (base rest : FilePath)
    → is_empty base ≡ false
    → components (base ++ slash ∷ rest) ≡ components base ++ segments [] rest
unfolding components
components-append [] rest h = cc
components-append (c ∷ base) rest h =
    ap (λ t. root_of (c ∷ base) ++ t) (segments-append [] (c ∷ base) rest)
    ∙ sym (append_assoc (root_of (c ∷ base)) (segments [] (c ∷ base)) (segments [] rest))

-- A path that goes on after another one and a separator is inside it, whatever the file system says,
-- and the two overlap.
dirs_overlap-nested :
    (canonicalize : FilePath → Option FilePath) (base rest : FilePath)
    → is_empty base ≡ false
    → (is_within canonicalize base (base ++ slash ∷ rest) ≡ true)
      × (dirs_overlap canonicalize base (base ++ slash ∷ rest) ≡ true)
      × (dirs_overlap canonicalize (base ++ slash ∷ rest) base ≡ true)
unfolding dirs_overlap is_within path_starts_with
dirs_overlap-nested canonicalize base rest h =
    let inside : is_prefix (components base) (components (base ++ slash ∷ rest)) ≡ true =
      ap (is_prefix (components base)) (components-append base rest h)
      ∙ is_prefix-append (components base) (segments [] rest) in
    (ground (arith, inside), ground (arith, inside), ground (arith, inside))
