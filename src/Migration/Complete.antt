-- ===== src/Migration/Complete.antt =====
-- That `migrate_old_format` of src/state_file.rs loses no daemon.
use pitchfork.Prelude.{
  ◌+◌, ◌≤◌, ◌<◌, ◌^◌, ◌≡◌, sym, ap, subst, true, false, some, List, [], ◌∷◌, arith, Bool-cases,
  Option-cases, inl, inr, length, any, ◌⊎◌, All,
}
use pitchfork.Text.{Text, text_eq, text_eq_iff, contains_char}
use pitchfork.DaemonId.{slash}
use pitchfork.Map.{Map, get, insert, remove, keys, is_some, text_key}
use pitchfork.Map.Laws.{get-insert, get-remove}
use pitchfork.Migration.{legacy, new_key, Toml, set_id, migrate_key, migrate_keys, migrate_daemons}
use pitchfork.Migration.Fresh.{new_key-legacy, length-remove_found}
use pitchfork.Migration.Qualified.{
  IsQualified, legacy-IsQualified, all_keys, length-insert, migrate_keys-IsQualified,
  migrate_keys-IsKept,
}

module _ (toml : Toml) where
  length-migrate_key :
      (old : Text) (m : Map Text toml.Value) → length (migrate_key toml old m) ≤ length m
  unfolding migrate_key
  length-migrate_key old m = elim (Option-cases (get old m)) [
    | inl absent ↦ rw (absent, migrate_key) (omega arith)
    | inr (value, there) ↦ elim (Bool-cases (contains_char old slash)) [
      | inl qualified ↦ rw (there, migrate_key) (rw qualified (omega arith))
      | inr bare ↦
          rw (there, migrate_key)
            (rw bare (
              omega (
                arith,
                length-remove_found old m (ap is_some there),
                length-insert (new_key old (remove old m))
                    (set_id toml (new_key old (remove old m)) value) (remove old m),
              )))
    ]
  ]

  -- The daemon is there under a name in the namespace of old daemons, with that as its identifier.
  abbrev pub IsRenamed : toml.Value → Map Text toml.Value → Type 0
  IsRenamed value n = (name : Text) × (get (legacy name) n ≡ some (set_id toml (legacy name) value))

  -- When its turn comes.
  renamed :
      (key : Text) (value : toml.Value) (m : Map Text toml.Value)
      → contains_char key slash ≡ false
      → get key m ≡ some value
      → IsRenamed value (migrate_key toml key m)
  unfolding migrate_key
  renamed key value m bare found =
      let rest = remove key m in
      let (name, same) = new_key-legacy key rest in
      rw (found, migrate_key)
        (rw bare (
          name,
          subst
              (λ k.
                get k (insert (new_key key rest) (set_id toml (new_key key rest) value) rest)
                ≡ some (set_id toml k value))
              same
              (rw
                (get-insert (new_key key rest) (new_key key rest)
                  (set_id toml (new_key key rest) value) rest)
                (ground (arith, text_eq_iff (new_key key rest) (new_key key rest)))),
        ))

  -- Until then.
  still_bare :
      (old key : Text) (value : toml.Value) (m : Map Text toml.Value)
      → text_eq key old ≡ false
      → contains_char key slash ≡ false
      → get key m ≡ some value
      → get key (migrate_key toml old m) ≡ some value
  unfolding migrate_key
  still_bare old key value m other bare found = elim (Option-cases (get old m)) [
    | inl absent ↦ rw (absent, migrate_key) found
    | inr (old_value, there) ↦ elim (Bool-cases (contains_char old slash)) [
      | inl qualified ↦ rw (there, migrate_key) (rw qualified found)
      | inr plain ↦
          let rest = remove old m in
          let (name, same) = new_key-legacy old rest in
          let new_qualified : IsQualified (new_key old rest) =
            subst IsQualified (sym same) (legacy-IsQualified name) in
          let apart : text_eq (new_key old rest) key ≡ false =
            ground (arith, text_eq_iff (new_key old rest) key, new_qualified, bare) in
          let not_old : text_eq old key ≡ false =
            ground (arith, text_eq_iff old key, text_eq_iff key old, other) in
          rw (there, migrate_key)
            (rw plain (
              rw
                (
                  get-insert (new_key old rest) key (set_id toml (new_key old rest) old_value) rest,
                  apart,
                )
                (rw (get-remove old key m, not_old) found)))
    ]
  ]

  migrate_keys-IsRenamed :
      (old_keys : List Text) (key : Text) (value : toml.Value) (m : Map Text toml.Value)
      → contains_char key slash ≡ false
      → any (text_eq key) old_keys ≡ true
      → get key m ≡ some value
      → length m + 3 < 2 ^ 32
      → IsRenamed value (migrate_keys toml old_keys m)
  unfolding migrate_keys
  migrate_keys-IsRenamed [] key value m bare listed found b = cc
  migrate_keys-IsRenamed (old ∷ old_keys) key value m bare listed found b =
      let shorter = length-migrate_key old m in
      elim (Bool-cases (text_eq key old)) [
        | inr other ↦
            migrate_keys-IsRenamed old_keys key value (migrate_key toml old m) bare
              (ground (arith, listed, other)) (still_bare old key value m other bare found)
              (omega (arith, shorter, b))
        | inl here ↦
            let now : IsRenamed value (migrate_key toml old m) =
              subst (λ k. IsRenamed value (migrate_key toml k m)) ((text_eq_iff key old).0 here)
                (renamed key value m bare found) in
            (
              now.0,
              (migrate_keys-IsKept toml old_keys (legacy now.0) (set_id toml (legacy now.0) value)
                  (migrate_key toml old m) (legacy-IsQualified now.0) now.1
                  (omega (arith, shorter, b))).found,
            )
      ]

  -- The key is one of the table.
  abbrev IsThere : Map Text toml.Value → Text → Type 0
  IsThere m key = (is_some (get key m) ≡ true) × (any (text_eq key) (keys m) ≡ true)

  IsThere-cons :
      (k : Text) (v : toml.Value) (m : Map Text toml.Value) (ks : List Text)
      → All (IsThere m) ks
      → All (IsThere ((k, v) ∷ m)) ks
  unfolding get keys
  IsThere-cons k v m [] h = tt
  IsThere-cons k v m (key ∷ ks) h =
      ((ground (arith, h.0), ground (arith, h.0)), IsThere-cons k v m ks h.1)

  keys-IsThere : (m : Map Text toml.Value) → All (IsThere m) (keys m)
  unfolding get keys
  keys-IsThere [] = tt
  keys-IsThere ((k, v) ∷ m) = (
    (ground (arith, text_eq_iff k k), ground (arith, text_eq_iff k k)),
    IsThere-cons k v m (keys m) (keys-IsThere m),
  )

  -- A daemon with a namespace is there as before, one without is there under a new name.
  abbrev pub IsMigrated : Map Text toml.Value → Text → Type 0
  IsMigrated daemons key =
      (value : toml.Value) × (get key daemons ≡ some value)
      × ((IsQualified key × (get key (migrate_daemons toml daemons) ≡ some value))
          ⊎ ((contains_char key slash ≡ false) × IsRenamed value (migrate_daemons toml daemons)))

  migrates :
      (daemons : Map Text toml.Value) (key : Text)
      → length daemons + 3 < 2 ^ 32
      → IsThere daemons key
      → IsMigrated daemons key
  unfolding migrate_daemons
  migrates daemons key b there = elim (Option-cases (get key daemons)) [
    | inl absent ↦ absurd (ground (arith, absent, there.0))
    | inr (value, found) ↦ elim (Bool-cases (contains_char key slash)) [
      | inl q ↦ (
        value,
        found,
        inl (q, (migrate_keys-IsKept toml (keys daemons) key value daemons q found b).found),
      )
      | inr bare ↦ (
        value,
        found,
        inr (bare, migrate_keys-IsRenamed (keys daemons) key value daemons bare there.1 found b),
      )
    ]
  ]

  keys-IsMigrated :
      (daemons : Map Text toml.Value) (ks : List Text)
      → length daemons + 3 < 2 ^ 32
      → All (IsThere daemons) ks
      → All (IsMigrated daemons) ks
  keys-IsMigrated daemons [] b h = tt
  keys-IsMigrated daemons (key ∷ ks) b h =
      (migrates daemons key b h.0, keys-IsMigrated daemons ks b h.1)

  -- After the migration of a table with fewer than 2 ^ 32 - 3 daemons, every key has a namespace. No
  -- daemon is lost: one that had a namespace is there as before, and one that had none is there
  -- under a name in the namespace of old daemons, with that as its identifier.
  pub migrate_daemons-IsComplete :
      (daemons : Map Text toml.Value)
      → length daemons + 3 < 2 ^ 32
      → All (λ e. IsQualified e.0) (migrate_daemons toml daemons)
        × All (IsMigrated daemons) (keys daemons)
  unfolding migrate_daemons
  migrate_daemons-IsComplete daemons b = (
    migrate_keys-IsQualified toml (keys daemons) daemons (all_keys daemons),
    keys-IsMigrated daemons (keys daemons) b (keys-IsThere daemons),
  )
