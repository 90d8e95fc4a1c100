-- ===== src/State.antt =====
-- src/state_file.rs: the state that the supervisor keeps and writes to its file. A path is the text
-- of its normal form. The serializer, a library, and the disk are parameters.
pub mod Access
pub mod Ops
pub mod Invariant
pub mod Saving
pub mod Durable
pub mod Lookup
pub mod Hosts
pub mod Upsert
pub mod Switch
mod Examples
pub mod Dirty
use pitchfork.Prelude.{
  ℕ, zero, suc, ◌+◌, ◌≡◌, ◌==◌, Bool, true, false, not, ◌&&◌, ◌||◌, Option, none, some, List, [],
  ◌∷◌, ◌++◌, map, arith, if◌then◌else◌, is_empty, length,
}
use pitchfork.Text.{Text, text_eq, text_eq_iff, text_le}
use pitchfork.Text.Decimal.{to_string}
use pitchfork.DaemonId.{DaemonId, slash}
use pitchfork.Config.{FilePath}
use pitchfork.Daemon.{Daemon, and_then, unwrap_or}
use pitchfork.Map.{Key, text_key, id_key, Map, get, insert, remove, modify, retain, is_some}

pub record ProjectSession : Type 0 where
  pub liveness_title : Option Text

-- Paths are in the order of their components: a separator comes before every other character.
abbrev pub path_le : FilePath → FilePath → Bool
path_le a b = text_le (map rank a) (map rank b)
  where
    rank : ℕ → ℕ
    rank c = if c == slash then 0 else c + 1

abbrev pub path_key : Key FilePath
path_key = record { eq = text_eq; eq_iff = text_eq_iff; le = path_le }

abbrev pub Sessions : Type 0
Sessions = Map FilePath ProjectSession

pub record StateFile : Type 0 where
  pub daemons : Map DaemonId Daemon
  pub disabled : Map DaemonId (Unit {0})
  pub shell_dirs : Map Text FilePath
  pub project_sessions : Map Text Sessions
  pub path : FilePath
  pub dirty : Bool
  pub last_content : Option Text

-- `StateFile::new`
unfoldable pub empty_state : FilePath → StateFile
empty_state path = record {
  daemons = [];
  disabled = [];
  shell_dirs = [];
  project_sessions = [];
  path = path;
  dirty = false;
  last_content = none;
}

unfoldable pub mark_dirty : StateFile → StateFile
mark_dirty s = record s { dirty = true }

unfoldable pub is_dirty : StateFile → Bool
is_dirty s = s.dirty

unfoldable pub insert_daemon : DaemonId → Daemon → StateFile → StateFile
insert_daemon id daemon s = mark_dirty (record s { daemons = insert id daemon s.daemons })

unfoldable pub remove_daemon : DaemonId → StateFile → StateFile
remove_daemon id s =
    let s' = record s { daemons = remove id s.daemons } in
    if is_some (get id s.daemons) then mark_dirty s' else s'

-- `BTreeSet::insert` leaves an element that it finds.
unfoldable pub disable_daemon : DaemonId → StateFile → StateFile × Bool
disable_daemon id s =
    if is_some (get id s.disabled)
    then (s, false)
    else (mark_dirty (record s { disabled = insert id tt s.disabled }), true)

unfoldable pub enable_daemon : DaemonId → StateFile → StateFile × Bool
enable_daemon id s =
    let s' = record s { disabled = remove id s.disabled } in
    if is_some (get id s.disabled) then (mark_dirty s', true) else (s', false)

-- A change of one daemon through `get_mut`.
abbrev pub update_daemon : DaemonId → (Daemon → Daemon) → StateFile → StateFile × Bool
update_daemon id f s =
    if is_some (get id s.daemons)
    then (mark_dirty (record s { daemons = modify id f s.daemons }), true)
    else (s, false)

unfoldable pub set_active_port : DaemonId → ℕ → StateFile → StateFile × Bool
set_active_port id port s = update_daemon id (λ d. record d { active_port = some port }) s

unfoldable pub clear_active_port : DaemonId → StateFile → StateFile × Bool
clear_active_port id s = update_daemon id (λ d. record d { active_port = none }) s

unfoldable pub set_last_cron_triggered : DaemonId → ℕ → StateFile → StateFile × Bool
set_last_cron_triggered id time s =
    update_daemon id (λ d. record d { last_cron_triggered = some time }) s

unfoldable pub set_shell_dir : ℕ → FilePath → StateFile → StateFile
set_shell_dir shell_pid dir s =
    mark_dirty (record s { shell_dirs = insert (to_string shell_pid) dir s.shell_dirs })

unfoldable pub remove_shell_dir : ℕ → StateFile → StateFile × Bool
remove_shell_dir shell_pid s =
    let s' = record s { shell_dirs = remove (to_string shell_pid) s.shell_dirs } in
    if is_some (get (to_string shell_pid) s.shell_dirs) then (mark_dirty s', true) else (s', false)

-- `entry(pid).or_default()`: the sessions of a host process.
abbrev pub sessions_of : Text → StateFile → Sessions
sessions_of pid s = unwrap_or (get pid s.project_sessions) []

unfoldable pub set_project_session :
    ℕ → FilePath → ProjectSession → StateFile → StateFile × Option ProjectSession
set_project_session pid dir session s =
    let inner = sessions_of (to_string pid) s in
    (
      mark_dirty (record s {
        project_sessions =
            insert (to_string pid) (insert ⦃k = path_key⦄ dir session inner) s.project_sessions;
      }),
      get ⦃k = path_key⦄ dir inner,
    )

-- What is left of the sessions of a host process; nothing is left of an empty table.
abbrev pub put_sessions : Text → Sessions → Map Text Sessions → Map Text Sessions
put_sessions pid inner m = if is_empty inner then remove pid m else modify pid (λ _. inner) m

unfoldable pub remove_project_session : ℕ → FilePath → StateFile → StateFile × Option ProjectSession
remove_project_session pid dir s = elim (get (to_string pid) s.project_sessions) [
  | none ↦ (s, none)
  | some inner ↦ elim (get ⦃k = path_key⦄ dir inner) [
    | none ↦ (s, none)
    | some session ↦ (
      mark_dirty (record s {
        project_sessions =
            put_sessions (to_string pid) (remove ⦃k = path_key⦄ dir inner) s.project_sessions;
      }),
      some session,
    )
  ]
]

unfoldable pub get_project_session : ℕ → FilePath → StateFile → Option ProjectSession
get_project_session pid dir s =
    and_then (get (to_string pid) s.project_sessions) (λ inner. get ⦃k = path_key⦄ dir inner)

abbrev pub with_pid : Text → Sessions → List (Text × FilePath × ProjectSession)
with_pid pid [] = []
with_pid pid ((dir, session) ∷ inner) = (pid, dir, session) ∷ with_pid pid inner

unfoldable pub flat_sessions : Map Text Sessions → List (Text × FilePath × ProjectSession)
flat_sessions [] = []
flat_sessions ((pid, inner) ∷ m) = with_pid pid inner ++ flat_sessions m

unfoldable pub iter_project_sessions : StateFile → List (Text × FilePath × ProjectSession)
unfolding flat_sessions
iter_project_sessions s = flat_sessions s.project_sessions

unfoldable pub retain_daemons : (DaemonId → Daemon → Bool) → StateFile → StateFile
retain_daemons f s =
    let s' = record s { daemons = retain f s.daemons } in
    if length s'.daemons == length s.daemons then s' else mark_dirty s'
