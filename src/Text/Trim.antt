-- ===== src/Text/Trim.antt =====
-- `str::trim` of the standard library, by the characters of Unicode's White_Space.
use pitchfork.Prelude.{ℕ, ◌==◌, leb, Bool, ◌&&◌, ◌||◌, [], ◌∷◌, if◌then◌else◌}
use mathlib.Core.List.{reverse}
use pitchfork.Text.{Text}

abbrev pub is_whitespace : ℕ → Bool
is_whitespace c =
    (leb 9 c && leb c 13)
    || c == 32
    || c == 0x85
    || c == 0xA0
    || c == 0x1680
    || (leb 0x2000 c && leb c 0x200A)
    || c == 0x2028
    || c == 0x2029
    || c == 0x202F
    || c == 0x205F
    || c == 0x3000

unfoldable pub trim_start : Text → Text
trim_start [] = []
trim_start (c ∷ s) = let rest = trim_start s in if is_whitespace c then rest else c ∷ s

unfoldable pub trim : Text → Text
unfolding trim_start
trim s = reverse (trim_start (reverse (trim_start s)))
