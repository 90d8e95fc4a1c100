-- ===== src/Text/Decimal.antt =====
-- `u32::to_string` and `str::parse::<u32>` of the standard library, for the keys of the state file.
use pitchfork.Prelude.{
  ℕ, zero, suc, ◌+◌, ◌-◌, ◌*◌, ◌/◌, ◌%◌, ◌^◌, ◌≤◌, ◌<◌, ◌≡◌, ◌==◌, leb, ltb, refl, Bool, true,
  false, ◌&&◌, Option, none, some, [], ◌∷◌, ◌++◌, arith, if◌then◌else◌, ap, ◌∙◌, Bool-cases, inl,
  inr, all, all-append, is_empty,
}
use pitchfork.Text.{Text}

-- The digits of `n`; `n + 1` rounds are enough, since a round divides by ten.
unfoldable pub digits : ℕ → ℕ → Text
digits zero n = []
digits (suc fuel) n =
    let rest = digits fuel (n / 10) in
    if ltb n 10 then (b'0' + n) ∷ [] else rest ++ (b'0' + n % 10) ∷ []

unfoldable pub to_string : ℕ → Text
to_string n = digits (n + 1) n

abbrev pub is_digit : ℕ → Bool
is_digit c = leb b'0' c && leb c b'9'

-- Each product and each sum is checked, and so is each character.
unfoldable pub parse_digits : ℕ → Text → Option ℕ
parse_digits acc [] = some acc
parse_digits acc (c ∷ cs) =
    let rest = parse_digits (acc * 10 + (c - b'0')) cs in
    if is_digit c && ltb (acc * 10) (2 ^ 32) && ltb (acc * 10 + (c - b'0')) (2 ^ 32)
    then rest
    else none

-- One sign, which must be followed by a digit.
unfoldable pub parse_u32 : Text → Option ℕ
unfolding parse_digits
parse_u32 [] = none
parse_u32 (c ∷ []) = parse_digits 0 (c ∷ [])
parse_u32 (c ∷ d ∷ cs) = if c == b'+' then parse_digits 0 (d ∷ cs) else parse_digits 0 (c ∷ d ∷ cs)

-- Reading one more digit.
parse_digits-append :
    (acc : ℕ) (s : Text) (n d : ℕ)
    → parse_digits acc s ≡ some n
    → d < 10
    → n * 10 + d < 2 ^ 32
    → parse_digits acc (s ++ (b'0' + d) ∷ []) ≡ some (n * 10 + d)
unfolding parse_digits
parse_digits-append acc [] n d h small fits = ground arith
parse_digits-append acc (c ∷ s) n d h small fits =
    ground (arith, parse_digits-append (acc * 10 + (c - b'0')) s n d)

parse_digits-digits : (fuel n : ℕ) → n < fuel → n < 2 ^ 32 → parse_digits 0 (digits fuel n) ≡ some n
unfolding parse_digits digits
parse_digits-digits zero n f h = absurd (omega arith)
parse_digits-digits (suc fuel) n f h = elim (Bool-cases (ltb n 10)) [
  | inl small ↦ rw small (ground arith)
  | inr large ↦
      let ten : 10 ≤ n = ground (arith, large) in
      let rest = parse_digits-digits fuel (n / 10) (omega (arith, ten)) (omega arith) in
      let last =
        parse_digits-append 0 (digits fuel (n / 10)) (n / 10) (n % 10) rest (omega arith)
          (omega arith) in
      rw large (last ∙ ap (λ k. some k) (omega arith))
]

-- The printed form has digits alone, and one at least.
digits-is_digit : (fuel n : ℕ) → all is_digit (digits fuel n) ≡ true
unfolding digits
digits-is_digit zero n = refl
digits-is_digit (suc fuel) n = ground (
  arith,
  digits-is_digit fuel (n / 10),
  all-append is_digit (digits fuel (n / 10)) ((b'0' + n % 10) ∷ []),
)

unsigned :
    (s : Text) (n : ℕ)
    → all is_digit s ≡ true
    → is_empty s ≡ false
    → parse_digits 0 s ≡ some n
    → parse_u32 s ≡ some n
unfolding parse_u32
unsigned [] n d h e = cc
unsigned (c ∷ []) n d h e = e
unsigned (c ∷ k ∷ cs) n d h e = ground arith

digits-nonempty : (fuel n : ℕ) → n < fuel → is_empty (digits fuel n) ≡ false
unfolding digits
digits-nonempty zero n f = absurd (omega arith)
digits-nonempty (suc fuel) n f =
    ground (arith, last_nonempty (digits fuel (n / 10)) (b'0' + n % 10))
  where
    last_nonempty : (xs : Text) (x : ℕ) → is_empty (xs ++ x ∷ []) ≡ false
    last_nonempty [] x = refl
    last_nonempty (y ∷ xs) x = refl

-- Every `u32` is read back from its printed form.
pub parse_u32-to_string : (n : ℕ) → n < 2 ^ 32 → parse_u32 (to_string n) ≡ some n
unfolding to_string
parse_u32-to_string n h =
    unsigned (digits (n + 1) n) n (digits-is_digit (n + 1) n)
      (digits-nonempty (n + 1) n (omega arith)) (parse_digits-digits (n + 1) n (omega arith) h)

pub to_string_injective : (m n : ℕ) → m < 2 ^ 32 → n < 2 ^ 32 → to_string m ≡ to_string n → m ≡ n
to_string_injective m n p q e = ground (arith, parse_u32-to_string m p, parse_u32-to_string n q, e)
