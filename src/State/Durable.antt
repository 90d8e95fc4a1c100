-- ===== src/State/Durable.antt =====
-- What is in the file that src/state_file.rs writes, and when.
use pitchfork.Prelude.{
  ◌≡◌, refl, sym, ◌∙◌, ap, true, false, Option, none, some, List, [], ◌∷◌, arith, Bool-cases,
  Option-cases, inl, inr, ok, err, ◌⊎◌, subst,
}
use pitchfork.Text.{Text, text_eq_iff}
use pitchfork.State.{
  StateFile, is_dirty, mark_dirty, insert_daemon, remove_daemon, enable_daemon, disable_daemon,
  set_active_port, clear_active_port, set_last_cron_triggered, set_shell_dir, remove_shell_dir,
  set_project_session, remove_project_session, retain_daemons,
}
use pitchfork.State.Access.{upsert_daemon}
use pitchfork.State.Ops.{
  Op, apply, upsert, drop, enabling, disabling, port, no_port, cron, shell, no_shell, session,
  no_session, retaining,
}
use pitchfork.State.Dirty.{apply_clean}
use pitchfork.State.Saving.{
  Persisted, persisted, SaveError, lock_failed, serialize_failed, create_dir_failed, write_failed,
  rename_failed, Disk, Attempt, write_raw, is_last, written, write_state, flush_state, Event,
  happen, history,
}

-- Every step on the disk succeeds.
pub record IsWorking (disk : Disk) : Type 0 where
  pub lock : disk.lock ≡ true
  pub create_dir : disk.create_dir ≡ true
  pub write : disk.write ≡ true
  pub rename : disk.rename ≡ true

module _ (to_toml : Persisted → Option Text) where
  -- The content that is remembered is in the file, and a state that is not dirty is in it too.
  pub record IsSaved (at : StateFile × Option Text) : Type 0 where
    pub remembered : (raw : Text) → at.0.last_content ≡ some raw → at.1 ≡ some raw
    pub current : at.0.dirty ≡ false → at.1 ≡ to_toml (persisted at.0)

  -- A state that is remembered is in the file already.
  same_content :
      (last : Option Text) (raw : Text) → is_last to_toml last raw ≡ true → last ≡ some raw
  same_content none raw h = cc
  same_content (some last) raw h = ground (arith, text_eq_iff last raw)

  abbrev failure : SaveError → StateFile → Option Text → Attempt
  failure e s file = record { state = s; file = file; result = err e }

  abbrev success : Text → StateFile → Attempt
  success raw s = record {
    state = record s { last_content = some raw; dirty = false };
    file = some raw;
    result = ok tt;
  }

  -- The attempt fails and changes nothing, or the state ends clean and in the file.
  abbrev pub IsAllOrNothing : StateFile → Option Text → Attempt → Type 0
  IsAllOrNothing s file attempt =
      ((e : SaveError) × (attempt ≡ failure e s file))
      ⊎ ((raw : Text) × (to_toml (persisted s) ≡ some raw) × (attempt ≡ success raw s))

  written-IsAllOrNothing :
      (disk : Disk) (s : StateFile) (file : Option Text) (raw : Text)
      → to_toml (persisted s) ≡ some raw
      → IsAllOrNothing s file (written to_toml raw (write_raw disk raw file) s)
  unfolding written write_raw
  written-IsAllOrNothing disk s file raw h = elim (Bool-cases disk.create_dir) [
    | inr no_dir ↦ inl (create_dir_failed, ground (arith, no_dir))
    | inl dir ↦ elim (Bool-cases disk.write) [
      | inr unwritten ↦ inl (write_failed, ground (arith, dir, unwritten))
      | inl temp ↦ elim (Bool-cases disk.rename) [
        | inr unnamed ↦ inl (rename_failed, ground (arith, dir, temp, unnamed))
        | inl renamed ↦ inr (raw, h, ground (arith, dir, temp, renamed))
      ]
    ]
  ]

  -- Every attempt to write fails and changes nothing, or leaves the state clean and in the file, if
  -- the content that is remembered was in the file.
  pub write_state-IsAllOrNothing :
      (disk : Disk) (s : StateFile) (file : Option Text)
      → ((text : Text) → s.last_content ≡ some text → file ≡ some text)
      → IsAllOrNothing s file (write_state to_toml disk s file)
  unfolding write_state
  write_state-IsAllOrNothing disk s file remembered = elim (Bool-cases disk.lock) [
    | inr unlocked ↦ inl (lock_failed, ground (arith, unlocked))
    | inl locked ↦ elim (Option-cases (to_toml (persisted s))) [
      | inl unserialized ↦ inl (serialize_failed, ground (arith, locked, unserialized))
      | inr (raw, serialized) ↦ elim (Bool-cases (is_last to_toml s.last_content raw)) [
        | inr changed ↦
            subst (IsAllOrNothing s file) (ground (arith, locked, serialized, changed))
              (written-IsAllOrNothing disk s file raw serialized)
        | inl unchanged ↦ inr (
          raw,
          serialized,
          ground (
            arith,
            locked,
            serialized,
            unchanged,
            same_content s.last_content raw unchanged,
            remembered raw,
          ),
        )
      ]
    ]
  ]

  -- A flush of a state that is saved leaves it saved.
  flush_state-IsSaved :
      (disk : Disk) (s : StateFile) (file : Option Text)
      → IsSaved (s, file)
      → IsSaved (flush_state to_toml disk (s, file))
  unfolding flush_state is_dirty
  flush_state-IsSaved disk s file saved = elim (Bool-cases s.dirty) [
    | inr clean ↦ subst IsSaved (ground (arith, clean)) saved
    | inl dirty ↦ elim (write_state-IsAllOrNothing disk s file saved.remembered) [
      | inl (e, same) ↦ subst IsSaved (ground (arith, same)) saved
      | inr (raw, serialized, whole) ↦
          subst IsSaved {x = ((success raw s).state, some raw)} (ground (arith, whole, dirty))
            (record { remembered = λ text e. e; current = λ _. sym serialized })
    ]
  ]

  apply-last_content : (op : Op) (s : StateFile) → (apply op s).last_content ≡ s.last_content
  unfolding apply upsert_daemon insert_daemon mark_dirty remove_daemon enable_daemon disable_daemon
      set_active_port clear_active_port set_last_cron_triggered set_shell_dir remove_shell_dir
      set_project_session remove_project_session retain_daemons
  apply-last_content (upsert procs opts) s = refl
  apply-last_content (drop id) s = ground arith
  apply-last_content (enabling id) s = ground arith
  apply-last_content (disabling id) s = ground arith
  apply-last_content (port id number) s = ground arith
  apply-last_content (no_port id) s = ground arith
  apply-last_content (cron id time) s = ground arith
  apply-last_content (shell pid dir) s = refl
  apply-last_content (no_shell pid) s = ground arith
  apply-last_content (session pid dir value) s = refl
  apply-last_content (no_session pid dir) s = ground arith
  apply-last_content (retaining f) s = ground arith

  happen-IsSaved :
      (e : Event) (s : StateFile) (file : Option Text)
      → IsSaved (s, file)
      → IsSaved (happen to_toml e (s, file))
  unfolding happen
  happen-IsSaved (Event.change op) s file saved = record {
    remembered = λ raw e. saved.remembered raw (sym (apply-last_content op s) ∙ e);
    current = λ clean.
        let same = apply_clean op s clean in
        saved.current (ap (λ t. t.dirty) (sym same) ∙ clean)
        ∙ ap (λ t. to_toml (persisted t)) (sym same);
  }
  happen-IsSaved (Event.flush disk) s file saved = flush_state-IsSaved disk s file saved

  -- Whatever operations and flushes follow one another, and whichever steps on the disk fail: from a
  -- saved state on, a state that is not dirty is in its file, and so is the content remembered.
  pub history-IsSaved :
      (events : List Event) (s : StateFile) (file : Option Text)
      → IsSaved (s, file)
      → IsSaved (history to_toml events (s, file))
  unfolding history
  history-IsSaved [] s file saved = saved
  history-IsSaved (e ∷ events) s file saved =
      history-IsSaved events ((happen to_toml e (s, file)).0) ((happen to_toml e (s, file)).1)
        (happen-IsSaved e s file saved)

  abbrev pub IsFlushed : StateFile → Text → StateFile × Option Text → Type 0
  IsFlushed s raw after =
      (after.0.dirty ≡ false) × (after.1 ≡ some raw) × (persisted after.0 ≡ persisted s)

  write_state-ok :
      (disk : Disk) (s : StateFile) (file : Option Text) (raw : Text)
      → to_toml (persisted s) ≡ some raw
      → IsWorking disk
      → (write_state to_toml disk s file).result ≡ ok tt
  unfolding write_state written write_raw
  write_state-ok disk s file raw h works = elim (Bool-cases (is_last to_toml s.last_content raw)) [
    | inl same ↦ ground (arith, h, same, works.lock)
    | inr other ↦ ground (arith, h, other, works.lock, works.create_dir, works.write, works.rename)
  ]

  -- A flush with a lock, a disk and a serializer that work leaves a saved state clean, in its file
  -- and otherwise as it was.
  flush_state_lem :
      (disk : Disk) (s : StateFile) (file : Option Text) (raw : Text)
      → IsSaved (s, file)
      → to_toml (persisted s) ≡ some raw
      → IsWorking disk
      → IsFlushed s raw (flush_state to_toml disk (s, file))
  unfolding flush_state is_dirty
  flush_state_lem disk s file raw saved h works = elim (Bool-cases s.dirty) [
    | inr clean ↦
        subst (IsFlushed s raw) {x = (s, file)} {y = flush_state to_toml disk (s, file)}
          (ground (arith, clean)) (clean, saved.current clean ∙ h, refl)
    | inl dirty ↦ elim (write_state-IsAllOrNothing disk s file saved.remembered) [
      | inl (e, same) ↦ ground (arith, write_state-ok disk s file raw h works, same)
      | inr (text, serialized, whole) ↦
          subst (IsFlushed s raw) {x = ((success text s).state, some text)}
            {y = flush_state to_toml disk (s, file)} (ground (arith, whole, dirty))
            (refl, sym serialized ∙ h, refl)
    ]
  ]
