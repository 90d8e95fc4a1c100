-- ===== src/Migration/Examples.antt =====
-- A run of `migrate_old_format` of src/state_file.rs on a small table.
use pitchfork.Prelude.{◌≡◌, refl, none, [], ◌∷◌, arith, All}
use pitchfork.Text.{Text, codes, text_eq, text_le, contains_char}
use pitchfork.Map.{Map, get, insert, remove, keys, text_key}
use pitchfork.Migration.{Toml, migrate_daemons, migrate_keys, migrate_key, new_key, search}
use pitchfork.Migration.Qualified.{IsQualified}
use pitchfork.Migration.Complete.{IsMigrated, migrate_daemons-IsComplete}

-- A `Value` that is always a string.
abbrev strings : Toml
strings = record { Value = Text; as_table = λ v. none; of_table = λ t. []; of_text = λ t. t }

abbrev old : Map Text Text
old = (codes "api", codes "new") ∷ (codes "legacy/api", codes "old") ∷ []

abbrev migrated : Map Text Text
migrated = (codes "legacy/api", codes "old") ∷ (codes "legacy/api-legacy", codes "new") ∷ []

-- The key that collides gets a name of its own.
collision : migrate_daemons strings old ≡ migrated
unfolding migrate_daemons migrate_keys migrate_key new_key search get insert remove keys text_eq
    contains_char text_le
collision = refl

migrate_daemons-IsComplete_example :
    All (λ e. IsQualified e.0) (migrate_daemons strings old)
    × All (IsMigrated strings old) (keys old)
migrate_daemons-IsComplete_example = migrate_daemons-IsComplete strings old (omega arith)
