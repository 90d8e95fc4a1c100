-- ===== src/Map.antt =====
-- `BTreeMap`: its entries in the order of their keys. A key type brings its equality and order.
pub mod Laws
use pitchfork.Prelude.{
  ℕ, ◌≡◌, ◌↔◌, Bool, true, false, not, Option, none, some, List, [], ◌∷◌, ◌++◌, map, arith,
  if◌then◌else◌, is_empty,
}
use pitchfork.Text.{Text, text_eq, text_eq_iff, text_le}
use pitchfork.DaemonId.{DaemonId, id_eq, id_eq_iff, id_le}

pub record Key (K : Type 0) : Type 0 where
  pub eq : K → K → Bool
  pub eq_iff : (a b : K) → (eq a b ≡ true) ↔ (a ≡ b)
  pub le : K → K → Bool

instance abbrev pub text_key : Key Text
text_key = record { eq = text_eq; eq_iff = text_eq_iff; le = text_le }

instance abbrev pub id_key : Key DaemonId
id_key = record { eq = id_eq; eq_iff = id_eq_iff; le = id_le }

abbrev pub Map : Type 0 → Type 0 → Type 0
Map K V = List (K × V)

module _ {K V : Type 0} ⦃k : Key K⦄ where
  unfoldable pub get : K → Map K V → Option V
  get x [] = none
  get x ((y, v) ∷ m) = if k.eq y x then some v else get x m

  unfoldable pub insert : K → V → Map K V → Map K V
  insert x v [] = (x, v) ∷ []
  insert x v ((y, w) ∷ m) =
      let rest = insert x v m in
      if k.eq y x then (x, v) ∷ m else (if k.le x y then (x, v) ∷ (y, w) ∷ m else (y, w) ∷ rest)

  unfoldable pub remove : K → Map K V → Map K V
  remove x [] = []
  remove x ((y, w) ∷ m) = let rest = remove x m in if k.eq y x then rest else (y, w) ∷ rest

  -- `get_mut`, and what the caller writes through it.
  unfoldable pub modify : K → (V → V) → Map K V → Map K V
  modify x f [] = []
  modify x f ((y, w) ∷ m) = if k.eq y x then (y, f w) ∷ m else (y, w) ∷ modify x f m

module _ {K V : Type 0} where
  unfoldable pub retain : (K → V → Bool) → Map K V → Map K V
  retain p [] = []
  retain p ((y, w) ∷ m) = let rest = retain p m in if p y w then (y, w) ∷ rest else rest

  unfoldable pub keys : Map K V → List K
  keys [] = []
  keys ((y, w) ∷ m) = y ∷ keys m

  unfoldable pub values : Map K V → List V
  values [] = []
  values ((y, w) ∷ m) = w ∷ values m

abbrev pub is_some {ℓ} : {A : Type ℓ} → Option A → Bool
is_some none = false
is_some (some a) = true
