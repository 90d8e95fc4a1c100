-- ===== src/State/Invariant.antt =====
-- What holds of the state of src/state_file.rs at all times.
use pitchfork.Prelude.{
  ℕ, ◌^◌, ◌<◌, ◌≡◌, refl, Bool, true, false, some, List, [], ◌∷◌, arith, Option-cases, inl, inr,
  if◌then◌else◌, is_empty, All,
}
use pitchfork.Text.{Text}
use pitchfork.Text.Decimal.{to_string, parse_u32, parse_u32-to_string}
use pitchfork.DaemonId.{DaemonId}
use pitchfork.Config.{FilePath}
use pitchfork.Daemon.{Daemon}
use pitchfork.Daemon.Options.{merge}
use pitchfork.Map.{Map, get, insert, remove, text_key, id_key}
use pitchfork.Map.Laws.{Entries, Entries-insert, Entries-remove, Entries-modify, Entries-retain}
use pitchfork.State.{
  StateFile, ProjectSession, Sessions, empty_state, mark_dirty, insert_daemon, remove_daemon,
  enable_daemon, disable_daemon, set_active_port, clear_active_port, set_last_cron_triggered,
  set_shell_dir, remove_shell_dir, set_project_session, remove_project_session, retain_daemons,
  path_key, put_sessions, sessions_of,
}
use pitchfork.State.Access.{upsert_daemon}
use pitchfork.State.Ops.{
  Op, apply, run, upsert, drop, enabling, disabling, port, no_port, cron, shell, no_shell, session,
  no_session, retaining,
}

-- Each daemon stands under its own identifier.
abbrev pub IsNamed : DaemonId → Daemon → Type 0
IsNamed id d = d.id ≡ id

-- The key is the number of a process.
abbrev pub IsPid : Text → Type 0
IsPid key = (pid : ℕ) × (parse_u32 key ≡ some pid)

-- The host process has at least one session.
abbrev pub IsHost : Text → Sessions → Type 0
IsHost key inner = IsPid key × (is_empty inner ≡ false)

abbrev pub IsWellFormed : StateFile → Type 0
IsWellFormed s =
    Entries IsNamed s.daemons
    × Entries (λ key dir. IsPid key) s.shell_dirs
    × Entries IsHost s.project_sessions

-- The process numbers of an operation are `u32` values.
abbrev pub IsInRange : Op → Type 0
IsInRange (shell pid dir) = pid < 2 ^ 32
IsInRange (session pid dir value) = pid < 2 ^ 32
IsInRange op = Unit

to_string-IsPid : (n : ℕ) → n < 2 ^ 32 → IsPid (to_string n)
to_string-IsPid n h = (n, parse_u32-to_string n h)

-- A test picks one of two states that both have the property.
picked : (P : StateFile → Type 0) (b : Bool) (s t : StateFile) → P s → P t → P (if b then s else t)
picked P true s t p q = p
picked P false s t p q = q

picked_first {ℓ} :
    {A : Type ℓ} (P : StateFile → Type 0) (b : Bool) (s t : StateFile × A)
    → P s.0
    → P t.0
    → P (if b then s else t).0
picked_first P true s t p q = p
picked_first P false s t p q = q

insert-nonempty :
    (dir : FilePath) (value : ProjectSession) (inner : Sessions)
    → is_empty (insert ⦃k = path_key⦄ dir value inner) ≡ false
unfolding insert
insert-nonempty dir value [] = refl
insert-nonempty dir value (e ∷ inner) = ground arith

put_sessions-IsHost :
    (pid : Text) (inner : Sessions) (m : Map Text Sessions)
    → Entries IsHost m
    → Entries IsHost (put_sessions pid inner m)
put_sessions-IsHost pid [] m h = Entries-remove IsHost pid m h
put_sessions-IsHost pid (e ∷ inner) m h =
    Entries-modify IsHost pid (λ _. e ∷ inner) m (λ y v q. (q.0, refl)) h

no_session-IsWellFormed :
    (pid : ℕ) (dir : FilePath) (s : StateFile)
    → IsWellFormed s
    → IsWellFormed ((remove_project_session pid dir s).0)
unfolding remove_project_session mark_dirty
no_session-IsWellFormed pid dir s w = elim (Option-cases (get (to_string pid) s.project_sessions)) [
  | inl no_host ↦ rw (no_host, remove_project_session) w
  | inr (inner, host) ↦ elim (Option-cases (get ⦃k = path_key⦄ dir inner)) [
    | inl absent ↦ rw (host, remove_project_session) (rw absent w)
    | inr (value, present) ↦
        rw (host, remove_project_session)
          (rw present (
            w.0,
            w.1,
            put_sessions-IsHost (to_string pid) (remove ⦃k = path_key⦄ dir inner) s.project_sessions
                w.2,
          ))
  ]
]

-- Every operation keeps the state well formed.
pub apply-IsWellFormed :
    (op : Op) (s : StateFile) → IsInRange op → IsWellFormed s → IsWellFormed (apply op s)
unfolding apply upsert_daemon insert_daemon mark_dirty remove_daemon enable_daemon disable_daemon
    set_active_port clear_active_port set_last_cron_triggered set_shell_dir remove_shell_dir
    set_project_session remove_project_session retain_daemons merge
apply-IsWellFormed (upsert procs opts) s r w =
    (Entries-insert IsNamed opts.id _ s.daemons refl w.0, w.1, w.2)
apply-IsWellFormed (drop id) s r w =
    let kept = Entries-remove IsNamed id s.daemons w.0 in
    picked IsWellFormed _ _ _ (kept, w.1, w.2) (kept, w.1, w.2)
apply-IsWellFormed (enabling id) s r w = picked_first IsWellFormed _ _ _ w w
apply-IsWellFormed (disabling id) s r w = picked_first IsWellFormed _ _ _ w w
apply-IsWellFormed (port id number) s r w =
    picked_first IsWellFormed _ _ _
      (Entries-modify IsNamed id _ s.daemons (λ y v q. q) w.0, w.1, w.2) w
apply-IsWellFormed (no_port id) s r w =
    picked_first IsWellFormed _ _ _
      (Entries-modify IsNamed id _ s.daemons (λ y v q. q) w.0, w.1, w.2) w
apply-IsWellFormed (cron id time) s r w =
    picked_first IsWellFormed _ _ _
      (Entries-modify IsNamed id _ s.daemons (λ y v q. q) w.0, w.1, w.2) w
apply-IsWellFormed (shell pid dir) s r w = (
  w.0,
  Entries-insert (λ key _. IsPid key) (to_string pid) dir s.shell_dirs (to_string-IsPid pid r) w.1,
  w.2,
)
apply-IsWellFormed (no_shell pid) s r w =
    let kept = Entries-remove (λ key _. IsPid key) (to_string pid) s.shell_dirs w.1 in
    picked_first IsWellFormed _ _ _ (w.0, kept, w.2) (w.0, kept, w.2)
apply-IsWellFormed (session pid dir value) s r w = (
  w.0,
  w.1,
  Entries-insert IsHost (to_string pid) _ s.project_sessions
      (to_string-IsPid pid r, insert-nonempty dir value (sessions_of (to_string pid) s)) w.2,
)
apply-IsWellFormed (no_session pid dir) s r w = no_session-IsWellFormed pid dir s w
apply-IsWellFormed (retaining f) s r w =
    let kept = Entries-retain IsNamed f s.daemons w.0 in
    picked IsWellFormed _ _ _ (kept, w.1, w.2) (kept, w.1, w.2)

-- From the empty state on, after any operations.
pub run-IsWellFormed :
    (ops : List Op) (s : StateFile) → All IsInRange ops → IsWellFormed s → IsWellFormed (run ops s)
unfolding run
run-IsWellFormed [] s r w = w
run-IsWellFormed (op ∷ ops) s r w =
    run-IsWellFormed ops (apply op s) r.1 (apply-IsWellFormed op s r.0 w)

-- A state that begins empty has, after any operations on `u32` process numbers, each daemon under
-- its own identifier, only process numbers as keys, and no host process without a session.
pub reachable-IsWellFormed :
    (path : FilePath) (ops : List Op)
    → All IsInRange ops
    → IsWellFormed (run ops (empty_state path))
unfolding empty_state
reachable-IsWellFormed path ops r = run-IsWellFormed ops _ r (tt, tt, tt)
