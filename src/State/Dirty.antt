-- ===== src/State/Dirty.antt =====
-- The dirty flag of src/state_file.rs.
use pitchfork.Prelude.{◌≡◌, refl, ◌∙◌, false, List, [], ◌∷◌, arith}
use pitchfork.Map.{text_key, id_key}
use pitchfork.Map.Laws.{remove_absent, retain_same}
use pitchfork.State.{
  StateFile, mark_dirty, insert_daemon, remove_daemon, enable_daemon, disable_daemon,
  set_active_port, clear_active_port, set_last_cron_triggered, set_shell_dir, remove_shell_dir,
  set_project_session, remove_project_session, retain_daemons,
}
use pitchfork.Text.Decimal.{to_string}
use pitchfork.State.Access.{upsert_daemon}
use pitchfork.State.Ops.{
  Op, apply, run, upsert, drop, enabling, disabling, port, no_port, cron, shell, no_shell, session,
  no_session, retaining,
}

-- An operation that leaves the flag clear has changed nothing.
pub apply_clean : (op : Op) (s : StateFile) → (apply op s).dirty ≡ false → apply op s ≡ s
unfolding apply upsert_daemon insert_daemon mark_dirty remove_daemon enable_daemon disable_daemon
    set_active_port clear_active_port set_last_cron_triggered set_shell_dir remove_shell_dir
    set_project_session remove_project_session retain_daemons
apply_clean (upsert procs opts) s h = cc
apply_clean (drop id) s h = ground (arith, remove_absent id s.daemons)
apply_clean (enabling id) s h = ground (arith, remove_absent id s.disabled)
apply_clean (disabling id) s h = ground arith
apply_clean (port id number) s h = ground arith
apply_clean (no_port id) s h = ground arith
apply_clean (cron id time) s h = ground arith
apply_clean (shell pid dir) s h = cc
apply_clean (no_shell pid) s h = ground (arith, remove_absent (to_string pid) s.shell_dirs)
apply_clean (session pid dir value) s h = cc
apply_clean (no_session pid dir) s h = ground arith
apply_clean (retaining f) s h = ground (arith, retain_same f s.daemons)

-- Whatever is done to the state, if its dirty flag is clear at the end, then it is the state that
-- there was: no change goes unnoticed.
pub run_clean : (ops : List Op) (s : StateFile) → (run ops s).dirty ≡ false → run ops s ≡ s
unfolding run
run_clean [] s h = refl
run_clean (op ∷ ops) s h =
    let same = run_clean ops (apply op s) h in same ∙ apply_clean op s (ground (arith, same))
