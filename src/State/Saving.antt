-- ===== src/State/Saving.antt =====
-- How src/state_file.rs writes the state to its file, and how src/supervisor/mod.rs has it written.
-- The serializer of the parts that are kept, and whether the steps on the disk succeed, are
-- parameters.
use pitchfork.Prelude.{
  Bool, false, Option, none, some, List, [], ◌∷◌, if◌then◌else◌, Result, ok, err,
}
use pitchfork.Text.{Text, text_eq}
use pitchfork.DaemonId.{DaemonId}
use pitchfork.Config.{FilePath}
use pitchfork.Daemon.{Daemon}
use pitchfork.Map.{Map}
use pitchfork.State.{StateFile, Sessions, is_dirty}
use pitchfork.State.Ops.{Op, apply}

-- The parts of the state that are not skipped.
pub record Persisted : Type 0 where
  pub daemons : Map DaemonId Daemon
  pub disabled : Map DaemonId (Unit {0})
  pub shell_dirs : Map Text FilePath
  pub project_sessions : Map Text Sessions

abbrev pub persisted : StateFile → Persisted
persisted s = record {
  daemons = s.daemons;
  disabled = s.disabled;
  shell_dirs = s.shell_dirs;
  project_sessions = s.project_sessions;
}

pub data SaveError : Type 0 where
  lock_failed serialize_failed create_dir_failed write_failed rename_failed : SaveError

-- Which steps succeed.
pub record Disk : Type 0 where
  pub lock : Bool
  pub create_dir : Bool
  pub write : Bool
  pub rename : Bool

-- What comes of an attempt to write: the state, and what the file holds.
pub record Attempt : Type 0 where
  pub state : StateFile
  pub file : Option Text
  pub result : Result SaveError (Unit {0})

-- The file changes by the last step alone, which replaces it as a whole.
unfoldable pub write_raw : Disk → Text → Option Text → Option Text × Result SaveError (Unit {0})
write_raw disk raw file =
    if disk.create_dir
    then (if disk.write
        then (if disk.rename then (some raw, ok tt) else (file, err rename_failed))
        else (file, err write_failed))
    else (file, err create_dir_failed)

-- What happens to the state and its file while the supervisor runs.
pub data Event : Type 0 where
  change : (op : Op) → Event
  flush : (disk : Disk) → Event

module _ (to_toml : Persisted → Option Text) where
  abbrev pub is_last : Option Text → Text → Bool
  is_last none raw = false
  is_last (some last) raw = text_eq last raw

  unfoldable pub written : Text → Option Text × Result SaveError (Unit {0}) → StateFile → Attempt
  written raw (file, ok _) s = record {
    state = record s { last_content = some raw; dirty = false };
    file = file;
    result = ok tt;
  }
  written raw (file, err e) s = record { state = s; file = file; result = err e }

  unfoldable pub write_unlocked : Disk → StateFile → Option Text → Attempt
  unfolding written
  write_unlocked disk s file = elim (to_toml (persisted s)) [
    | none ↦ record { state = s; file = file; result = err serialize_failed }
    | some raw ↦ written raw (write_raw disk raw file) s
  ]

  -- `StateFile::write`
  unfoldable pub write_state : Disk → StateFile → Option Text → Attempt
  unfolding written
  write_state disk s file =
      if disk.lock
      then elim (to_toml (persisted s)) [
        | none ↦ record { state = s; file = file; result = err serialize_failed }
        | some raw ↦
            if is_last s.last_content raw
            then record { state = record s { dirty = false }; file = file; result = ok tt }
            else written raw (write_raw disk raw file) s
      ]
      else record { state = s; file = file; result = err lock_failed }

  -- `flush_state`: what goes wrong is only logged.
  unfoldable pub flush_state : Disk → StateFile × Option Text → StateFile × Option Text
  flush_state disk (s, file) =
      let attempt = write_state disk s file in
      if is_dirty s then (attempt.state, attempt.file) else (s, file)

  unfoldable pub happen : Event → StateFile × Option Text → StateFile × Option Text
  happen (change op) (s, file) = (apply op s, file)
  happen (flush disk) at = flush_state disk at

  unfoldable pub history : List Event → StateFile × Option Text → StateFile × Option Text
  history [] at = at
  history (e ∷ events) at = history events (happen e at)
