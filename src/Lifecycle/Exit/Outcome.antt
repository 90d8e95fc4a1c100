-- ===== src/Lifecycle/Exit/Outcome.antt =====
-- What the end of a process does to its daemon, of src/supervisor/lifecycle.rs.
use pitchfork.Prelude.{
  ℕ, ◌≡◌, ◌≤◌, ◌<◌, Bool, true, false, Option, none, some, [], ◌∷◌, if◌then◌else◌,
}
use pitchfork.DaemonId.{DaemonId, id_eq}
use pitchfork.Config.{Retry}
use pitchfork.Daemon.{Daemon, DaemonStatus, stopped, errored}
use pitchfork.Daemon.Options.{Procs}
use pitchfork.State.{StateFile}
use pitchfork.State.Access.{get_daemon}
use pitchfork.Lifecycle.Exit.{
  ExitStatus, success, last_success, code_of, on_fail, on_stop, on_exit, ends, already_stopped,
  taken_over, Ended, Meanwhile,
}

module _ (procs : Procs) (id : DaemonId) (pid retry_count : ℕ) (retry : Retry) (status : ExitStatus)
    (others : Meanwhile) where
  -- The daemon has no process and this status, and the others are as another task has left them.
  abbrev pub IsRecorded : (left : StateFile) → DaemonStatus → Option Bool → StateFile → Type 0
  IsRecorded left to succeeded u =
      ((d : Daemon) × (get_daemon id u ≡ some d)
        × (d.pid ≡ none)
        × (d.status ≡ to)
        × (d.last_exit_success ≡ succeeded))
      × ((x : DaemonId)
          → get_daemon x u ≡ (if id_eq id x then get_daemon id u else get_daemon x left))

  -- The daemon as the task finds it when it looks again: it may act on it, and nobody has
  -- stopped it.
  abbrev Ours : StateFile → Type 0
  Ours t = (taken_over pid (get_daemon id t) ≡ false) × (already_stopped (get_daemon id t) ≡ false)

  -- How a process ends, whose daemon was found in the state `s` when it ended, and in `t` after the
  -- output was drained. The cases exclude one another.
  pub data Ends (s t : StateFile) : Ended → Type 0 where
    was_stopping :
        ends (get_daemon id s) ≡ true
        → Ends s t (record { state = others.look t; hooks = on_stop ∷ on_exit ∷ [] })
    left_to_another :
        ends (get_daemon id s) ≡ false
        → taken_over pid (get_daemon id t) ≡ true
        → Ends s t (record { state = t; hooks = [] })
    was_stopped :
        ends (get_daemon id s) ≡ false
        → taken_over pid (get_daemon id t) ≡ false
        → already_stopped (get_daemon id t) ≡ true
        → Ends s t (record { state = others.look t; hooks = on_stop ∷ on_exit ∷ [] })
    stop_ends :
        (u : StateFile)
        → ends (get_daemon id s) ≡ false
        → Ours t
        → ends (get_daemon id t) ≡ true
        → IsRecorded (others.look t) stopped (some (last_success status)) u
        → Ends s t (record { state = u; hooks = on_stop ∷ on_exit ∷ [] })
    exits :
        (u : StateFile)
        → ends (get_daemon id s) ≡ false
        → Ours t
        → ends (get_daemon id t) ≡ false
        → success status ≡ true
        → IsRecorded (others.look t) stopped (some true) u
        → Ends s t (record { state = u; hooks = on_exit ∷ [] })
    will_retry :
        (u : StateFile)
        → ends (get_daemon id s) ≡ false
        → Ours t
        → ends (get_daemon id t) ≡ false
        → success status ≡ false
        → retry_count < retry.count
        → IsRecorded (others.look t) (errored (code_of status)) (some false) u
        → Ends s t (record { state = u; hooks = [] })
    fails :
        (u : StateFile)
        → ends (get_daemon id s) ≡ false
        → Ours t
        → ends (get_daemon id t) ≡ false
        → success status ≡ false
        → retry.count ≤ retry_count
        → IsRecorded (others.look t) (errored (code_of status)) (some false) u
        → Ends s t (record { state = u; hooks = on_fail ∷ on_exit ∷ [] })
