-- ===== src/Migration/Qualified.antt =====
-- What `migrate_old_format` of src/state_file.rs makes of the table of daemons.
use pitchfork.Prelude.{
  suc, ◌+◌, ◌≤◌, ◌<◌, ◌^◌, ◌≡◌, refl, sym, ap, subst, true, false, none, some, List, [], ◌∷◌, arith,
  Bool-cases, Option-cases, inl, inr, length, any, ◌⊎◌, All,
}
use pitchfork.Text.{Text, text_eq, text_eq_iff, contains_char}
use pitchfork.DaemonId.{slash}
use pitchfork.Map.{Map, get, insert, remove, keys, is_some, text_key}
use pitchfork.Map.Laws.{Entries, Entries-insert, get-insert, get-remove}
use pitchfork.Migration.{legacy, new_key, Toml, set_id, rename, migrate_key, migrate_keys}
use pitchfork.Migration.Fresh.{new_key-fresh, new_key-legacy, length-remove_found}

abbrev pub IsQualified : Text → Type 0
IsQualified key = contains_char key slash ≡ true

pub legacy-IsQualified : (name : Text) → IsQualified (legacy name)
unfolding contains_char
legacy-IsQualified name = refl

module _ {V : Type 0} where
  -- The key is qualified or among those that are still to be migrated.
  abbrev pub Waits : List Text → Text → V → Type 0
  Waits old_keys key value = IsQualified key ⊎ (any (text_eq key) old_keys ≡ true)

  none_left :
      (key : Text) (old_keys : List Text) (m : Map Text V)
      → get key m ≡ none
      → Entries (Waits (key ∷ old_keys)) m
      → Entries (Waits old_keys) m
  unfolding get
  none_left key old_keys [] e h = tt
  none_left key old_keys ((k, v) ∷ m) e h = (
    elim h.0 [ inl q ↦ inl q | inr w ↦ inr (ground (arith, w, e)) ],
    none_left key old_keys m (ground (arith, e)) h.1,
  )

  removed :
      (key : Text) (old_keys : List Text) (m : Map Text V)
      → Entries (Waits (key ∷ old_keys)) m
      → Entries (Waits old_keys) (remove key m)
  unfolding remove
  removed key old_keys [] h = tt
  removed key old_keys ((k, v) ∷ m) h = elim (Bool-cases (text_eq k key)) [
    | inl same ↦ rw same (removed key old_keys m h.1)
    | inr other ↦ rw other (
      elim h.0 [ inl q ↦ inl q | inr w ↦ inr (ground (arith, w, other)) ],
      removed key old_keys m h.1,
    )
  ]

  qualified_already :
      (key : Text) (old_keys : List Text) (m : Map Text V)
      → IsQualified key
      → Entries (Waits (key ∷ old_keys)) m
      → Entries (Waits old_keys) m
  qualified_already key old_keys [] q h = tt
  qualified_already key old_keys ((k, v) ∷ m) q h = (
    elim h.0 [
      | inl already ↦ inl already
      | inr w ↦ elim (Bool-cases (text_eq k key)) [
        | inl same ↦ inl (subst IsQualified (sym ((text_eq_iff k key).0 same)) q)
        | inr other ↦ inr (ground (arith, w, other))
      ]
    ],
    qualified_already key old_keys m q h.1,
  )

  also :
      (key : Text) (old_keys : List Text) (m : Map Text V)
      → Entries (Waits old_keys) m
      → Entries (Waits (key ∷ old_keys)) m
  also key old_keys [] h = tt
  also key old_keys ((k, v) ∷ m) h =
      (elim h.0 [ inl q ↦ inl q | inr w ↦ inr (ground (arith, w)) ], also key old_keys m h.1)

  pub all_keys : (m : Map Text V) → Entries (Waits (keys m)) m
  unfolding keys
  all_keys [] = tt
  all_keys ((k, v) ∷ m) = (inr (ground (arith, text_eq_iff k k)), also k (keys m) m (all_keys m))

  pub length-insert : (x : Text) (v : V) (m : Map Text V) → length (insert x v m) ≤ suc (length m)
  unfolding insert
  length-insert x v [] = omega arith
  length-insert x v ((y, w) ∷ m) = ground (arith, length-insert x v m)

  All-IsQualified : (m : Map Text V) → Entries (Waits []) m → All (λ e. IsQualified e.0) m
  All-IsQualified [] h = tt
  All-IsQualified ((k, v) ∷ m) h = (elim h.0 [ inl q ↦ q | inr w ↦ cc ], All-IsQualified m h.1)

module _ (toml : Toml) where
  rename-Waits :
      (key : Text) (value : toml.Value) (old_keys : List Text) (rest : Map Text toml.Value)
      → Entries (Waits old_keys) rest
      → Entries (Waits old_keys) (rename toml key value rest)
  rename-Waits key value old_keys rest h =
      Entries-insert (Waits old_keys) (new_key key rest) (set_id toml (new_key key rest) value) rest
        (inl (
          subst IsQualified (sym (new_key-legacy key rest).1)
            (legacy-IsQualified (new_key-legacy key rest).0)))
        h

  migrate_key-Waits :
      (key : Text) (old_keys : List Text) (m : Map Text toml.Value)
      → Entries (Waits (key ∷ old_keys)) m
      → Entries (Waits old_keys) (migrate_key toml key m)
  unfolding migrate_key
  migrate_key-Waits key old_keys m h = elim (Option-cases (get key m)) [
    | inl absent ↦ rw (absent, migrate_key) (none_left key old_keys m absent h)
    | inr (value, e) ↦ elim (Bool-cases (contains_char key slash)) [
      | inl q ↦ rw (e, migrate_key) (rw q (qualified_already key old_keys m q h))
      | inr bare ↦
          rw (e, migrate_key)
            (rw bare (rename-Waits key value old_keys (remove key m) (removed key old_keys m h)))
    ]
  ]

  pub migrate_keys-IsQualified :
      (old_keys : List Text) (m : Map Text toml.Value)
      → Entries (Waits old_keys) m
      → All (λ e. IsQualified e.0) (migrate_keys toml old_keys m)
  unfolding migrate_keys
  migrate_keys-IsQualified [] m h = All-IsQualified m h
  migrate_keys-IsQualified (key ∷ old_keys) m h =
      migrate_keys-IsQualified old_keys (migrate_key toml key m)
        (migrate_key-Waits key old_keys m h)

  -- A qualified daemon stays, and no more daemons are there than before.
  pub record IsKept (key : Text) (value : toml.Value) (m n : Map Text toml.Value) : Type 0 where
    pub found : get key n ≡ some value
    pub size : length n ≤ length m

  migrate_key-IsKept :
      (old key : Text) (value : toml.Value) (m : Map Text toml.Value)
      → IsQualified key
      → get key m ≡ some value
      → length m + 3 < 2 ^ 32
      → IsKept key value m (migrate_key toml old m)
  unfolding migrate_key
  migrate_key-IsKept old key value m q e b = elim (Option-cases (get old m)) [
    | inl absent ↦ rw (absent, migrate_key) (record { found = e; size = omega arith })
    | inr (old_value, there) ↦ elim (Bool-cases (contains_char old slash)) [
      | inl qualified ↦
          rw (there, migrate_key) (rw qualified (record { found = e; size = omega arith }))
      | inr bare ↦ rw (there, migrate_key) (rw bare (renamed old_value there bare))
    ]
  ]
    where
      rest : Map Text toml.Value
      rest = remove old m

      renamed :
          (old_value : toml.Value)
          → get old m ≡ some old_value
          → contains_char old slash ≡ false
          → IsKept key value m (rename toml old old_value rest)
      renamed old_value there bare =
          let shrunk : length rest < length m = length-remove_found old m (ap is_some there) in
          let apart : text_eq old key ≡ false = ground (arith, text_eq_iff old key, q, bare) in
          let still : get key rest ≡ some value = ground (arith, get-remove old key m, apart, e) in
          let fresh = new_key-fresh old rest (omega (arith, shrunk, b)) in
          let new = set_id toml (new_key old rest) old_value in
          record {
            found = ground (
              arith,
              get-insert (new_key old rest) key new rest,
              fresh,
              still,
              text_eq_iff (new_key old rest) key,
            );
            size = omega (arith, shrunk, length-insert (new_key old rest) new rest);
          }

  pub migrate_keys-IsKept :
      (old_keys : List Text) (key : Text) (value : toml.Value) (m : Map Text toml.Value)
      → IsQualified key
      → get key m ≡ some value
      → length m + 3 < 2 ^ 32
      → IsKept key value m (migrate_keys toml old_keys m)
  unfolding migrate_keys
  migrate_keys-IsKept [] key value m q e b = record { found = e; size = omega arith }
  migrate_keys-IsKept (old ∷ old_keys) key value m q e b =
      let one = migrate_key-IsKept old key value m q e b in
      let more =
        migrate_keys-IsKept old_keys key value (migrate_key toml old m) q one.found
          (omega (arith, one.size, b)) in
      record { found = more.found; size = omega (arith, one.size, more.size) }
