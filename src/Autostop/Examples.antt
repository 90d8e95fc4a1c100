-- ===== src/Autostop/Examples.antt =====
-- Runs of src/supervisor/autostop.rs on a small state.
use pitchfork.Prelude.{◌≡◌, refl, true, false, inl, Option, none, some, List, [], ◌∷◌, Result, ok}
use pitchfork.Text.{Text, codes, text_eq}
use pitchfork.DaemonId.{DaemonId, id_eq}
use pitchfork.Config.{FilePath}
use pitchfork.Daemon.{running}
use pitchfork.Daemon.Options.{Procs, UpsertDaemonOpts, builder, merge}
use pitchfork.Map.{get, id_key, values, insert}
use pitchfork.State.{StateFile, empty_state, insert_daemon, mark_dirty, iter_project_sessions}
use pitchfork.State.Access.{
  upsert_daemon, active_daemons, get_active_directories, distinct, get_daemon,
}
use pitchfork.Autostop.{
  Supervisor, is_left, is_due, is_within, path_starts_with, components, segments, is_prefix,
  leave_dir, leave_all, leave_one, autostop, add_notification, process_pending_autostops,
  process_all, process_one, due_ids,
}
use pitchfork.Autostop.Leave.{Some, IsLeftBehind, IsJustified, leave_dir-IsJustified}

abbrev api : DaemonId
api = record { namespace = codes "g"; name = codes "api" }

abbrev procs : Procs
procs = record { title = λ pid. none; start_time = λ pid. none; is_running = λ pid. true }

abbrev project : FilePath
project = codes "/p/a"

abbrev opts : UpsertDaemonOpts
opts = record (builder api) { pid = some 41; status = running; dir = some project; autostop = true }

abbrev no_links : FilePath → Option FilePath
no_links path = none

abbrev as_is : List FilePath → List FilePath
as_is dirs = dirs

abbrev keep_state : DaemonId → StateFile → StateFile × Result Text (Unit {0})
keep_state id s = (s, ok tt)

abbrev before : Supervisor
before = record {
  state = (upsert_daemon procs opts (empty_state (codes "/s"))).0;
  pending_autostops = [];
  pending_notifications = [];
  stops = [];
}

-- A name that only begins like another is not inside it.
sibling : path_starts_with (codes "/p/ab") project ≡ false
unfolding path_starts_with components segments is_prefix text_eq
sibling = refl

leave_dir-IsJustified_example :
    IsJustified no_links
      (codes "/p")
      (get_active_directories as_is before.state)
      0
      7
      (active_daemons before.state)
      before
      (leave_dir no_links as_is keep_state (codes "/p") 0 7 before).0
leave_dir-IsJustified_example =
    leave_dir-IsJustified no_links as_is keep_state (codes "/p") 0 7 before

left : (leave_dir no_links as_is keep_state (codes "/p") 0 7 before).1 ≡ ok tt
unfolding leave_dir leave_all leave_one autostop add_notification is_left is_within path_starts_with
    components segments is_prefix text_eq active_daemons get_active_directories distinct
    upsert_daemon insert_daemon mark_dirty empty_state values builder id_eq get
    iter_project_sessions insert merge
left = refl

behind :
    Some
      (IsLeftBehind no_links (codes "/p") (get_active_directories as_is before.state) 0 7 api)
      (active_daemons before.state)
unfolding is_left is_within path_starts_with components segments is_prefix text_eq active_daemons
    get_active_directories distinct upsert_daemon insert_daemon mark_dirty empty_state values
    builder id_eq get iter_project_sessions insert merge
behind = inl (refl, refl, (project, refl, refl, refl))

abbrev scheduled : Supervisor
scheduled = record before { pending_autostops = (api, 5) ∷ [] }

abbrev processed : Supervisor × Result Text (Unit {0})
processed = process_pending_autostops no_links as_is keep_state (λ ids. ids) 9 scheduled

all_processed : processed.1 ≡ ok tt
unfolding process_pending_autostops process_all process_one due_ids is_due autostop add_notification
    get_daemon get_active_directories distinct upsert_daemon insert_daemon mark_dirty empty_state
    values builder id_eq text_eq get iter_project_sessions insert merge
all_processed = refl
