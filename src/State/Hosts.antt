-- ===== src/State/Hosts.antt =====
-- Entering and leaving a project session, of src/supervisor/state.rs.
use pitchfork.Prelude.{
  ℕ, ◌^◌, ◌<◌, ◌≡◌, refl, ◌∙◌, Bool, true, false, not, ◌&&◌, Option, none, some, arith,
  Option-cases, inl, inr, if◌then◌else◌, ◌==◌, ap, ==_iff, ok, is_ok, ◌≤◌, ◌↔◌,
}
use pitchfork.Text.{text_eq, text_eq_iff}
use pitchfork.Text.Decimal.{to_string}
use pitchfork.Config.{FilePath}
use pitchfork.Daemon.Options.{Procs}
use pitchfork.Map.{get, text_key}
use pitchfork.State.{
  StateFile, ProjectSession, set_project_session, remove_project_session, get_project_session,
}
use pitchfork.State.Access.{enter_project_session, leave_project_session, i32_max}
use pitchfork.State.Lookup.{
  get_project_session-set_project_session, get_project_session-remove_project_session,
  set_project_session-previous,
}

-- A host process that may enter a session.
abbrev pub IsHostPid : Bool → Procs → ℕ → Type 0
IsHostPid unix procs pid =
    (0 < pid) × (pid ≤ i32_max) × ((unix && not (procs.is_running pid)) ≡ false)

-- Entering a session succeeds exactly for a process number from 1 to `i32::MAX` that, on Unix, is
-- running.
enter_project_session_iff :
    (unix : Bool) (procs : Procs) (pid : ℕ) (dir : FilePath) (s : StateFile)
    → (is_ok (enter_project_session unix procs pid dir s) ≡ true) ↔ IsHostPid unix procs pid
unfolding enter_project_session
enter_project_session_iff unix procs pid dir s = ground arith

remove_project_session-found :
    (pid : ℕ) (dir : FilePath) (s : StateFile)
    → (remove_project_session pid dir s).1 ≡ get_project_session pid dir s
unfolding remove_project_session get_project_session
remove_project_session-found pid dir s =
    elim (Option-cases (get (to_string pid) s.project_sessions)) [
      | inl no_host ↦ ground (arith, no_host)
      | inr (inner, host) ↦ ground (arith, host)
    ]

entered :
    (unix : Bool) (procs : Procs) (pid : ℕ) (dir : FilePath) (s t : StateFile)
    (previous : Option ProjectSession)
    → enter_project_session unix procs pid dir s ≡ ok (t, previous)
    → (t, previous) ≡ set_project_session pid dir (record { liveness_title = procs.title pid }) s
unfolding enter_project_session
entered unix procs pid dir s t previous h = ground arith

-- Whoever enters a session is told the one that there was; leaving it then returns its directory,
-- and what is left is without it and otherwise as before.
pub leave-enter :
    (unix : Bool) (procs : Procs) (pid other : ℕ) (dir elsewhere : FilePath) (s t : StateFile)
    (previous : Option ProjectSession)
    → other < 2 ^ 32
    → enter_project_session unix procs pid dir s ≡ ok (t, previous)
    → (previous ≡ get_project_session pid dir s)
      × ((leave_project_session pid dir t).1 ≡ some dir)
      × (get_project_session other elsewhere ((leave_project_session pid dir t).0) ≡ (
          if (pid == other) && text_eq dir elsewhere
          then none
          else get_project_session other elsewhere s))
unfolding leave_project_session
leave-enter unix procs pid other dir elsewhere s t previous q h =
    let e = entered unix procs pid dir s t previous h in
    let host = (enter_project_session_iff unix procs pid dir s).0 (ap is_ok h) in
    let p : pid < 2 ^ 32 = omega (arith, host) in
    let value : ProjectSession = record { liveness_title = procs.title pid } in
    let found : get_project_session pid dir t ≡ some value =
      ap (λ r. get_project_session pid dir r.0) e
      ∙ get_project_session-set_project_session pid pid dir dir value s p p
      ∙ rw ((==_iff pid pid).1 refl, (text_eq_iff dir dir).1 refl) refl in
    (
      ap (λ r. r.1) e ∙ set_project_session-previous pid dir value s,
      rw (remove_project_session-found pid dir t) (rw found refl),
      get_project_session-remove_project_session pid other dir elsewhere t p q
          ∙ ap (λ g. if (pid == other) && text_eq dir elsewhere then none else g)
              (ap (λ r. get_project_session other elsewhere r.0) e
                ∙ get_project_session-set_project_session pid other dir elsewhere value s p q)
          ∙ twice ((pid == other) && text_eq dir elsewhere) (some value)
              (get_project_session other elsewhere s),
    )
  where
    twice :
        (b : Bool) (v w : Option ProjectSession)
        → (if b then none else (if b then v else w)) ≡ (if b then none else w)
    twice true v w = refl
    twice false v w = refl
