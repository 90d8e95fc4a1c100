-- ===== src/Autostop/Pending.antt =====
-- The deadlines of src/supervisor/autostop.rs: their cancellation, and what happens when they pass.
use pitchfork.Prelude.{
  ℕ, ◌≡◌, refl, ◌∙◌, ap, Bool, true, false, ◌&&◌, ◌||◌, Option, none, List, [], ◌∷◌, ◌++◌, arith,
  Bool-cases, some, any, inl, inr, if◌then◌else◌, Result, ok, Result-cases,
}
use pitchfork.DaemonId.{DaemonId, id_eq}
use pitchfork.Config.{FilePath}
use pitchfork.Daemon.{Daemon, running}
use pitchfork.Map.{get, remove, id_key, Map}
use pitchfork.Map.Laws.{get-remove}
use pitchfork.Deps.{elem}
use pitchfork.State.{StateFile}
use pitchfork.State.Access.{get_active_directories}
use pitchfork.Autostop.{
  Supervisor, is_cancelled, is_within, cancel_all, cancel_pending_autostops_for_dir, is_due,
  process_one, process_all, due_ids, process_pending_autostops,
}
use pitchfork.Autostop.Leave.{autostop-pending}

module _ (canonicalize : FilePath → Option FilePath) where
  -- `x` is a daemon of the state in a directory that `dir` overlaps.
  abbrev pub overlaps : FilePath → DaemonId → Map DaemonId Daemon → Bool
  overlaps dir x [] = false
  overlaps dir x ((id, d) ∷ m) = (is_cancelled canonicalize dir d && id_eq id x) || overlaps dir x m

  get-cancel_all :
      (dir : FilePath) (x : DaemonId) (m : Map DaemonId Daemon) (pending : Map DaemonId ℕ)
      → get x (cancel_all canonicalize dir m pending)
        ≡ (if overlaps dir x m then none else get x pending)
  unfolding cancel_all
  get-cancel_all dir x [] pending = refl
  get-cancel_all dir x ((id, d) ∷ m) pending = elim (Bool-cases (is_cancelled canonicalize dir d)) [
    | inl hit ↦
        rw hit
          (get-cancel_all dir x m (remove id pending) ∙ rw (get-remove id x pending) (ground arith))
    | inr miss ↦ rw miss (get-cancel_all dir x m pending)
  ]

  -- Entering a directory cancels the deadlines of exactly the daemons whose directories overlap it.
  get-cancel_pending_autostops_for_dir :
      (dir : FilePath) (x : DaemonId) (s : Supervisor)
      → get x (cancel_pending_autostops_for_dir canonicalize dir s).pending_autostops
        ≡ (if overlaps dir x s.state.daemons then none else get x s.pending_autostops)
  unfolding cancel_pending_autostops_for_dir
  get-cancel_pending_autostops_for_dir dir x s =
      get-cancel_all dir x s.state.daemons s.pending_autostops

module _ {E : Type 0} (canonicalize : FilePath → Option FilePath)
    (hash_order : List FilePath → List FilePath)
    (stop : DaemonId → StateFile → StateFile × Result E (Unit {0})) where
  -- The daemon is running, stops by itself and has no active directory in its own.
  abbrev pub IsIdle : StateFile → DaemonId → Type 0
  IsIdle t x =
      (d : Daemon) × (get x t.daemons ≡ some d)
      × (d.autostop ≡ true)
      × (d.status ≡ running)
      × ((daemon_dir : FilePath) × (d.dir ≡ some daemon_dir)
          × (any (is_within canonicalize daemon_dir) (get_active_directories hash_order t) ≡ false))

  abbrev all_of : List DaemonId → Supervisor → Supervisor × Result E (Unit {0})
  all_of ids s = process_all canonicalize hash_order stop ids s

  abbrev one : DaemonId → Supervisor → Supervisor × Result E (Unit {0})
  one id s = process_one canonicalize hash_order stop id s

  -- It was so when its turn came among these: in the state that the turns before it leave, none of
  -- which failed.
  abbrev pub WasDue : List DaemonId → Supervisor → DaemonId → Type 0
  WasDue ids s x =
      (before : List DaemonId) × (after : List DaemonId) × (ids ≡ before ++ x ∷ after)
      × ((process_all canonicalize hash_order stop before s).1 ≡ ok tt)
      × IsIdle (process_all canonicalize hash_order stop before s).0.state x

  -- The deadline of the daemon is gone.
  abbrev waiting : DaemonId → Supervisor → Supervisor
  waiting id s = record s { pending_autostops = remove id s.pending_autostops }

  get-process_one :
      (id x : DaemonId) (s : Supervisor)
      → get x (one id s).0.pending_autostops
        ≡ (if id_eq id x then none else get x s.pending_autostops)
  unfolding process_one
  get-process_one id x s = elim (Bool-cases (is_due canonicalize hash_order s.state id)) [
    | inl due ↦ rw due (
        ap (λ m. get x m) (autostop-pending canonicalize hash_order stop id (waiting id s))
        ∙ get-remove id x s.pending_autostops)
    | inr not_due ↦ rw not_due (get-remove id x s.pending_autostops)
  ]

  get-process_all :
      (ids : List DaemonId) (s : Supervisor) (x : DaemonId)
      → (all_of ids s).1 ≡ ok tt
      → get x (all_of ids s).0.pending_autostops
        ≡ (if elem x ids then none else get x s.pending_autostops)
  unfolding process_all elem
  get-process_all [] s x h = refl
  get-process_all (id ∷ ids) s x h = elim (Result-cases (one id s).1) [
    | inl (_, e) ↦
        let rest : (all_of ids (one id s).0).1 ≡ ok tt = rw (e, process_all) at h in
        rw (e, process_all)
          (get-process_all ids (one id s).0 x rest ∙ rw (get-process_one id x s) (ground arith))
    | inr (failure, e) ↦ let failed = rw (e, process_all) at h in cc
  ]

  -- If no stop fails, the deadlines that have passed are gone, and the others are as they were.
  get-process_pending_autostops :
      (due_order : List DaemonId → List DaemonId) (now : ℕ) (s : Supervisor) (x : DaemonId)
      → ((l : List DaemonId) → elem x (due_order l) ≡ elem x l)
      → (process_pending_autostops canonicalize hash_order stop due_order now s).1 ≡ ok tt
      → get x
          (process_pending_autostops canonicalize hash_order stop due_order now
            s).0.pending_autostops
        ≡ (if elem x (due_ids now s.pending_autostops) then none else get x s.pending_autostops)
  unfolding process_pending_autostops
  get-process_pending_autostops due_order now s x same h =
      get-process_all (due_order (due_ids now s.pending_autostops)) s x h
      ∙ ap (λ b. if b then none else get x s.pending_autostops)
          (same (due_ids now s.pending_autostops))
