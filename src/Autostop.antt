-- ===== src/Autostop.antt =====
-- src/supervisor/autostop.rs: stopping the daemons of a directory that is left, at once or after a
-- delay. `stop`, a method of src/supervisor/lifecycle.rs, is any function that changes the state and
-- may fail; `canonicalize` asks the file system. A function runs here without another in between, and
-- `now` is the instant at which it does.
pub mod Within
pub mod Leave
pub mod Thorough
pub mod Pending
mod Examples
use pitchfork.Prelude.{
  ℕ, ◌+◌, ◌≡◌, ◌==◌, leb, Bool, true, false, not, ◌&&◌, ◌||◌, Option, none, some, List, [], ◌∷◌,
  ◌++◌, map, arith, if◌then◌else◌, is_empty, any, Result, ok, err,
}
use pitchfork.Text.{Text, codes, text_eq}
use pitchfork.DaemonId.{DaemonId, slash, qualified}
use pitchfork.Config.{FilePath, Duration}
use pitchfork.Daemon.{Daemon, DaemonStatus, running}
use pitchfork.Map.{Map, get, insert, remove, is_some, id_key}
use pitchfork.State.{StateFile}
use pitchfork.State.Access.{active_daemons, get_active_directories, get_daemon}

-- The names of a path between its separators.
unfoldable pub segments : Text → Text → List Text
segments [] [] = []
segments (c ∷ name) [] = (c ∷ name) ∷ []
segments name (c ∷ cs) =
    let next = segments [] cs in
    let more = segments (name ++ c ∷ []) cs in
    if c == slash then (if is_empty name then next else name ∷ next) else more

abbrev pub root_of : FilePath → List Text
root_of [] = []
root_of (c ∷ cs) = if c == slash then (slash ∷ []) ∷ [] else []

-- `Path::components`, of a normal path.
unfoldable pub components : FilePath → List Text
components path = root_of path ++ segments [] path

unfoldable pub is_prefix : List Text → List Text → Bool
is_prefix [] ys = true
is_prefix (x ∷ xs) [] = false
is_prefix (x ∷ xs) (y ∷ ys) = text_eq x y && is_prefix xs ys

-- `path.starts_with(base)`
unfoldable pub path_starts_with : FilePath → FilePath → Bool
path_starts_with path base = is_prefix (components base) (components path)

-- What `is_within` makes of the canonical forms, if there are both.
abbrev pub both_within : Option FilePath → Option FilePath → Bool
both_within (some b) (some p) = path_starts_with p b
both_within (some b) none = false
both_within none p = false

-- `log::LevelFilter`
pub data LevelFilter : Type 0 where
  off error warn info debug trace : LevelFilter

-- The parts of the supervisor that autostop works on, and the calls of `stop` that it has made, the
-- last one first.
pub record Supervisor : Type 0 where
  pub state : StateFile
  pub pending_autostops : Map DaemonId ℕ
  pub pending_notifications : List (LevelFilter × Text)
  pub stops : List DaemonId

abbrev pub is_running : DaemonStatus → Bool
is_running (DaemonStatus.failed message) = false
is_running DaemonStatus.waiting = false
is_running DaemonStatus.running = true
is_running DaemonStatus.stopping = false
is_running (DaemonStatus.errored code) = false
is_running DaemonStatus.stopped = false

unfoldable pub add_notification : LevelFilter → Text → Supervisor → Supervisor
add_notification level text s = record s {
  pending_notifications = s.pending_notifications ++ (level, text) ∷ [];
}

unfoldable pub get_notifications : Supervisor → Supervisor × List (LevelFilter × Text)
get_notifications s = (record s { pending_notifications = [] }, s.pending_notifications)

abbrev pub schedule : DaemonId → ℕ → Supervisor → Supervisor
schedule id stop_at s =
    if is_some (get id s.pending_autostops)
    then s
    else record s { pending_autostops = insert id stop_at s.pending_autostops }

unfoldable pub due_ids : ℕ → Map DaemonId ℕ → List DaemonId
due_ids now [] = []
due_ids now ((id, stop_at) ∷ m) =
    let rest = due_ids now m in if leb stop_at now then id ∷ rest else rest

module _ (canonicalize : FilePath → Option FilePath) where
  unfoldable pub is_within : (base path : FilePath) → Bool
  is_within base path =
      path_starts_with path base || both_within (canonicalize base) (canonicalize path)

  unfoldable pub dirs_overlap : FilePath → FilePath → Bool
  unfolding is_within
  dirs_overlap a b = is_within a b || is_within b a

  -- Some active directory is the daemon's or inside it.
  abbrev pub still_active : FilePath → List FilePath → Bool
  still_active daemon_dir active_dirs = any (is_within daemon_dir) active_dirs

  -- The daemon is one that leaving `dir` stops.
  unfoldable pub is_left : FilePath → List FilePath → Daemon → Bool
  is_left dir active_dirs d = d.autostop && elim d.dir [
    | none ↦ false
    | some daemon_dir ↦ is_within dir daemon_dir && not (still_active daemon_dir active_dirs)
  ]

  -- The daemon is in a directory that the entered one overlaps.
  abbrev pub is_cancelled : FilePath → Daemon → Bool
  is_cancelled dir d = elim d.dir [ none ↦ false | some daemon_dir ↦ dirs_overlap dir daemon_dir ]

  unfoldable pub cancel_all : FilePath → Map DaemonId Daemon → Map DaemonId ℕ → Map DaemonId ℕ
  cancel_all dir [] pending = pending
  cancel_all dir ((id, d) ∷ m) pending =
      cancel_all dir m (if is_cancelled dir d then remove id pending else pending)

  unfoldable pub cancel_pending_autostops_for_dir : FilePath → Supervisor → Supervisor
  unfolding cancel_all
  cancel_pending_autostops_for_dir dir s = record s {
    pending_autostops = cancel_all dir s.state.daemons s.pending_autostops;
  }

  -- The daemon that is due is one to stop.
  unfoldable pub is_due : (List FilePath → List FilePath) → StateFile → DaemonId → Bool
  is_due hash_order state id = elim (get_daemon id state) [
    | none ↦ false
    | some d ↦ d.autostop && is_running d.status && elim d.dir [
      | none ↦ false
      | some daemon_dir ↦ not (still_active daemon_dir (get_active_directories hash_order state))
    ]
  ]

module _ {E : Type 0} (canonicalize : FilePath → Option FilePath)
    (hash_order : List FilePath → List FilePath)
    (stop : DaemonId → StateFile → StateFile × Result E (Unit {0})) where
  -- The call of `stop`, and the notification if it does not fail.
  unfoldable pub autostop : DaemonId → Supervisor → Supervisor × Result E (Unit {0})
  unfolding add_notification
  autostop id s =
      let (state', result) = stop id s.state in
      let s' = record s { state = state'; stops = id ∷ s.stops } in
      elim result [
        | ok _ ↦ (add_notification info (codes "autostopped " ++ qualified id) s', ok tt)
        | err e ↦ (s', err e)
      ]

  -- What `leave_dir` does with one daemon.
  unfoldable pub leave_one :
      FilePath
      → List FilePath
      → Duration
      → (now : ℕ) → Daemon
      → Supervisor
      → Supervisor × Result E (Unit {0})
  leave_one dir active_dirs delay now d s =
      if is_left canonicalize dir active_dirs d
      then (if delay == 0 then autostop d.id s else (schedule d.id (now + delay) s, ok tt))
      else (s, ok tt)

  unfoldable pub leave_all :
      FilePath
      → List FilePath
      → Duration
      → ℕ
      → List Daemon
      → Supervisor
      → Supervisor × Result E (Unit {0})
  leave_all dir active_dirs delay now [] s = (s, ok tt)
  leave_all dir active_dirs delay now (d ∷ ds) s =
      let (s', result) = leave_one dir active_dirs delay now d s in
      let rest = leave_all dir active_dirs delay now ds s' in
      elim result [ ok _ ↦ rest | err e ↦ (s', err e) ]

  unfoldable pub leave_dir :
      FilePath → Duration → (now : ℕ) → Supervisor → Supervisor × Result E (Unit {0})
  leave_dir dir delay now s =
      leave_all dir (get_active_directories hash_order s.state) delay now (active_daemons s.state) s

  unfoldable pub process_one : DaemonId → Supervisor → Supervisor × Result E (Unit {0})
  process_one id s =
      let s' = record s { pending_autostops = remove id s.pending_autostops } in
      if is_due canonicalize hash_order s.state id then autostop id s' else (s', ok tt)

  unfoldable pub process_all : List DaemonId → Supervisor → Supervisor × Result E (Unit {0})
  process_all [] s = (s, ok tt)
  process_all (id ∷ ids) s =
      let (s', result) = process_one id s in
      let rest = process_all ids s' in elim result [ ok _ ↦ rest | err e ↦ (s', err e) ]

  -- The map of deadlines is a hash map: `due_order` is the order in which its keys come.
  unfoldable pub process_pending_autostops :
      (List DaemonId → List DaemonId) → (now : ℕ) → Supervisor → Supervisor × Result E (Unit {0})
  process_pending_autostops due_order now s =
      process_all (due_order (due_ids now s.pending_autostops)) s
