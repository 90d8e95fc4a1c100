-- ===== src/Migration.antt =====
-- `migrate_old_format` of src/state_file.rs, for its table of daemons: names without a namespace get
-- one. `Value`, its tables and its strings belong to the TOML library.
pub mod Fresh
pub mod Qualified
pub mod Complete
mod Examples
use pitchfork.Prelude.{
  ℕ, zero, suc, ◌+◌, ◌≡◌, Bool, true, false, not, ◌&&◌, Option, none, some, List, [], ◌∷◌, ◌++◌,
  if◌then◌else◌, length, any, is_empty,
}
use pitchfork.Text.{Text, codes, contains_char}
use pitchfork.Text.Decimal.{to_string}
use pitchfork.DaemonId.{slash, dash}
use pitchfork.Map.{Map, get, insert, remove, keys, is_some, text_key}

abbrev pub legacy : Text → Text
legacy name = codes "legacy/" ++ name

abbrev pub base_of : Text → Text
base_of key = key ++ codes "-legacy"

-- The candidates after the first one.
abbrev pub numbered : Text → ℕ → Text
numbered base n = legacy (base ++ dash ∷ to_string n)

-- A library's `Value`: the table that it is, if it is one; a table and a string as a `Value`.
pub record Toml : Type 1 where
  pub Value : Type 0
  pub as_table : Value → Option (Map Text Value)
  pub of_table : Map Text Value → Value
  pub of_text : Text → Value

module _ {V : Type 0} where
  abbrev pub contains_key : Text → Map Text V → Bool
  contains_key key m = is_some (get key m)

  -- The `while` loop, from `numbered base n` on; without fuel it returns a candidate unseen.
  unfoldable pub search : ℕ → Text → ℕ → Map Text V → Text
  search zero base n m = numbered base n
  search (suc fuel) base n m =
      let next = search fuel base (n + 1) m in
      if contains_key (numbered base n) m then next else numbered base n

  -- The key of the migrated daemon, which collides with none.
  unfoldable pub new_key : Text → Map Text V → Text
  new_key key m =
      if contains_key (legacy key) m
      then (if contains_key (legacy (base_of key)) m
          then search (suc (length m)) (base_of key) 2 m
          else legacy (base_of key))
      else legacy key

  -- Detection of the old format: at least one key of the table of daemons, if there is one, has no
  -- '/'.
  unfoldable pub looks_like_old_format : Option (Map Text V) → Bool
  looks_like_old_format none = false
  looks_like_old_format (some daemons) =
      not (is_empty daemons) && any (λ key. not (contains_char key slash)) (keys daemons)

module _ (toml : Toml) where
  abbrev pub set_id : Text → toml.Value → toml.Value
  set_id key value = elim (toml.as_table value) [
    | none ↦ value
    | some table ↦ toml.of_table (insert (codes "id") (toml.of_text key) table)
  ]

  abbrev pub rename : Text → toml.Value → Map Text toml.Value → Map Text toml.Value
  rename key value rest = insert (new_key key rest) (set_id (new_key key rest) value) rest

  unfoldable pub migrate_key : Text → Map Text toml.Value → Map Text toml.Value
  migrate_key key daemons = elim (get key daemons) [
    | none ↦ daemons
    | some value ↦
        (if contains_char key slash then daemons else rename key value (remove key daemons))
  ]

  unfoldable pub migrate_keys : List Text → Map Text toml.Value → Map Text toml.Value
  migrate_keys [] daemons = daemons
  migrate_keys (key ∷ old_keys) daemons = migrate_keys old_keys (migrate_key key daemons)

  unfoldable pub migrate_daemons : Map Text toml.Value → Map Text toml.Value
  migrate_daemons daemons = migrate_keys (keys daemons) daemons

-- The set of disabled daemons, an array of strings among other things.
unfoldable pub migrate_disabled : Text → Text
migrate_disabled s = if contains_char s slash then s else legacy s
