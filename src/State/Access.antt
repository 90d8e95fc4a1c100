-- ===== src/State/Access.antt =====
-- src/supervisor/state.rs: what the supervisor reads from its state and does to it. Each function
-- holds the lock of the state from its first look to its last change, so it is one step. The
-- configuration that can be read, `none` where that fails, and the process table are parameters.
use pitchfork.Prelude.{
  ℕ, ◌==◌, ltb, Bool, not, ◌&&◌, ◌||◌, Option, none, some, List, [], ◌∷◌, ◌++◌, map, if◌then◌else◌,
  keep, any, Result, ok, err, ◌>>◌, refuse,
}
use pitchfork.Text.{Text, text_eq}
use pitchfork.Text.Decimal.{to_string, parse_u32}
use pitchfork.DaemonId.{DaemonId, id_eq, pitchfork_id, qualified}
use pitchfork.Config.{FilePath, Daemons}
use pitchfork.Daemon.{Daemon}
use pitchfork.Daemon.Options.{UpsertDaemonOpts, Procs, merge}
use pitchfork.Map.{text_key, id_key, Map, get, values, is_some}
use pitchfork.State.{
  StateFile, ProjectSession, insert_daemon, enable_daemon, disable_daemon, set_project_session,
  remove_project_session, iter_project_sessions, retain_daemons,
}

-- The messages that these functions return as errors.
pub data StateError : Type 0 where
  config_unreadable : StateError
  not_found : (id : Text) → StateError
  invalid_pid : StateError
  pid_too_large pid_not_running : (pid : ℕ) → StateError

unfoldable pub upsert_daemon : Procs → UpsertDaemonOpts → StateFile → StateFile × Daemon
upsert_daemon procs opts s =
    let daemon = merge procs opts (get opts.id s.daemons) in
    (insert_daemon opts.id daemon s, daemon)

abbrev pub is_known : DaemonId → Daemons → StateFile → Bool
is_known id config s = is_some (get id s.daemons) || is_some (get id config)

-- `enable` and `disable`, up to the call that differs.
unfoldable pub switch :
    (DaemonId → StateFile → StateFile × Bool)
    → Option Daemons
    → DaemonId
    → StateFile
    → Result StateError (StateFile × Bool)
switch f none id s = err config_unreadable
switch f (some config) id s = do
  refuse (not (is_known id config s)) (not_found (qualified id))
  ok (f id s)

unfoldable pub enable : Option Daemons → DaemonId → StateFile → Result StateError (StateFile × Bool)
unfolding switch
enable config id s = switch enable_daemon config id s

unfoldable pub disable :
    Option Daemons → DaemonId → StateFile → Result StateError (StateFile × Bool)
unfolding switch
disable config id s = switch disable_daemon config id s

unfoldable pub get_daemon : DaemonId → StateFile → Option Daemon
get_daemon id s = get id s.daemons

unfoldable pub active_daemons : StateFile → List Daemon
active_daemons s = keep (λ d. is_some d.pid && not (id_eq d.id pitchfork_id)) (values s.daemons)

unfoldable pub get_shell_dir : ℕ → StateFile → Option FilePath
get_shell_dir shell_pid s = get (to_string shell_pid) s.shell_dirs

-- The shells of each directory, in the order of their keys; a key that is no number is passed over.
unfoldable pub push_pid : FilePath → ℕ → List (FilePath × List ℕ) → List (FilePath × List ℕ)
push_pid dir pid [] = (dir, pid ∷ []) ∷ []
push_pid dir pid ((d, pids) ∷ acc) =
    if text_eq d dir then (d, pids ++ pid ∷ []) ∷ acc else (d, pids) ∷ push_pid dir pid acc

unfoldable pub dirs_with_pids :
    Map Text FilePath → List (FilePath × List ℕ) → List (FilePath × List ℕ)
dirs_with_pids [] acc = acc
dirs_with_pids ((pid, dir) ∷ m) acc =
    dirs_with_pids m (elim (parse_u32 pid) [ none ↦ acc | some n ↦ push_pid dir n acc ])

unfoldable pub get_dirs_with_shell_pids : StateFile → List (FilePath × List ℕ)
unfolding dirs_with_pids
get_dirs_with_shell_pids s = dirs_with_pids s.shell_dirs []

unfoldable pub clean : StateFile → StateFile
clean s = retain_daemons (λ id d. is_some d.pid) s

-- A set of directories: each once.
unfoldable pub distinct : List FilePath → List FilePath
distinct [] = []
distinct (dir ∷ dirs) =
    let rest = distinct dirs in if any (text_eq dir) rest then rest else dir ∷ rest

-- `hash_order` is the order in which the set is iterated.
unfoldable pub get_active_directories : (List FilePath → List FilePath) → StateFile → List FilePath
get_active_directories hash_order s =
    hash_order (distinct (values s.shell_dirs ++ map (λ e. e.1) (iter_project_sessions s)))

unfoldable pub liveness :
    List (Text × FilePath × ProjectSession) → List (ℕ × FilePath × Option Text)
liveness [] = []
liveness ((pid_str, dir, session) ∷ sessions) =
    let rest = liveness sessions in
    elim (parse_u32 pid_str) [ none ↦ rest | some pid ↦ (pid, dir, session.liveness_title) ∷ rest ]

unfoldable pub get_liveness_sessions : StateFile → List (ℕ × FilePath × Option Text)
unfolding liveness
get_liveness_sessions s = liveness (iter_project_sessions s)

pub record ProjectSessionInfo : Type 0 where
  pub pid : ℕ
  pub directory : FilePath
  pub liveness_title : Option Text
  pub alive : Bool
  pub current_title : Option Text

-- `procs` is the process table after the refresh.
unfoldable pub get_project_sessions_info : Procs → StateFile → List ProjectSessionInfo
unfolding liveness
get_project_sessions_info procs s =
    map
      (λ e. record {
        pid = e.0;
        directory = e.1;
        liveness_title = e.2;
        alive = procs.is_running e.0;
        current_title = procs.title e.0;
      })
      (liveness (iter_project_sessions s))

abbrev pub i32_max : ℕ
i32_max = 2147483647

-- `unix` is the target: elsewhere a process that is not seen is let in.
unfoldable pub enter_project_session :
    (unix : Bool)
    → Procs
    → ℕ
    → FilePath
    → StateFile
    → Result StateError (StateFile × Option ProjectSession)
enter_project_session unix procs pid dir s = do
  refuse (pid == 0) invalid_pid
  refuse (ltb i32_max pid) (pid_too_large pid)
  refuse (unix && not (procs.is_running pid)) (pid_not_running pid)
  ok (set_project_session pid dir (record { liveness_title = procs.title pid }) s)

unfoldable pub leave_project_session : ℕ → FilePath → StateFile → StateFile × Option FilePath
leave_project_session pid dir s =
    let (s', removed) = remove_project_session pid dir s in
    (s', if is_some removed then some dir else none)
