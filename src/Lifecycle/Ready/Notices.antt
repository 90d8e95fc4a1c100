-- ===== src/Lifecycle/Ready/Notices.antt =====
-- What the loop of src/supervisor/lifecycle.rs that watches a process tells the caller.
use pitchfork.Prelude.{
  ℕ, ◌≡◌, Bool, true, false, Option, some, List, [], ◌∷◌, arith, if◌then◌else◌, pos, length,
}
use pitchfork.Text.{Text}
use pitchfork.Lifecycle.Exit.{ExitStatus}
use pitchfork.Lifecycle.Ready.Rounds.{rounds_keep}
use pitchfork.Lifecycle.Ready.{
  Checks, Notice, ready, failed, Watch, Event, process_exits, output, http_timed_out,
  output_timed_out, port_timed_out, cmd_timed_out, http_answers, port_probed, respawn, cmd_ends,
  delay_elapsed, flush, watch, fail_if_exhausted, on_exit, check_output, fire_output_hook, on_http,
  on_port, on_cmd, on_delay, enabled, react, rounds,
}

module _ (c : Checks) where
  -- What a caller that waits is told; one that does not wait is told nothing.
  abbrev pub told : Notice → List Notice
  told n = if c.wait_ready then n ∷ [] else []

  -- While the loop runs a waiting caller is told nothing until the daemon is ready, and then that it
  -- is, once, as the hook is fired once. When it ends the caller has been told something, once.
  pub record IsSound (w : Watch) : Type 0 where
    pub waiting :
        w.over ≡ false → w.ready_notified ≡ false → (w.ready_tx ≡ c.wait_ready) × (w.notices ≡ [])
    pub became_ready : w.ready_notified ≡ true → (w.ready_tx ≡ false) × (w.notices ≡ told ready)
    pub hook : w.on_ready ≡ (if w.ready_notified then 1 else 0)
    pub ended :
        w.over ≡ true → (w.ready_tx ≡ false) × (length w.notices ≡ (if c.wait_ready then 1 else 0))
    pub gave_up :
        w.killed ≡ true
        → (w.ready_notified ≡ false)
          × (w.over ≡ true)
          × (w.notices ≡ told (failed (some (pos 124))))

  watch-IsSound : IsSound (watch c)
  unfolding watch
  watch-IsSound = ground arith

  module _ (w : Watch) (running : w.over ≡ false) (s : IsSound w) where
    fail_if_exhausted-IsSound : w.ready_notified ≡ false → IsSound (fail_if_exhausted c w)
    unfolding fail_if_exhausted
    fail_if_exhausted-IsSound h = ground arith

    on_exit-IsSound : (status : ExitStatus) → IsSound (on_exit c status w)
    unfolding on_exit
    on_exit-IsSound status = ground arith

    check_output-IsSound : (line : Text) → IsSound (check_output c line w)
    unfolding check_output
    check_output-IsSound line = ground arith

    on_http-IsSound : (status : Option ℕ) → w.ready_notified ≡ false → IsSound (on_http c status w)
    unfolding on_http
    on_http-IsSound status h = ground arith

    on_port-IsSound :
        (listening : Bool) → w.ready_notified ≡ false → IsSound (on_port c listening w)
    unfolding on_port
    on_port-IsSound listening h = ground arith

    on_cmd-IsSound : (succeeded : Bool) → w.ready_notified ≡ false → IsSound (on_cmd c succeeded w)
    unfolding on_cmd
    on_cmd-IsSound succeeded h = ground arith

    on_delay-IsSound : (alive : Bool) → IsSound (on_delay c alive w)
    unfolding on_delay
    on_delay-IsSound alive = ground arith

    fire_output_hook-IsSound : (line : Text) (now : ℕ) → IsSound (fire_output_hook c line now w)
    unfolding fire_output_hook
    fire_output_hook-IsSound line now = ground arith

    check_output-over : (line : Text) → (check_output c line w).over ≡ false
    unfolding check_output
    check_output-over line = ground arith

  react-IsSound :
      (w : Watch) (e : Event)
      → w.over ≡ false
      → IsSound w
      → enabled c w e ≡ true
      → IsSound (react c w e)
  unfolding react enabled
  react-IsSound w (process_exits status) r s h = on_exit-IsSound w r s status
  react-IsSound w (output line now) r s h =
      fire_output_hook-IsSound (check_output c line w) (check_output-over w r s line)
        (check_output-IsSound w r s line) line now
  react-IsSound w http_timed_out r s h =
      fail_if_exhausted-IsSound _ r (ground arith) (ground (arith, h))
  react-IsSound w output_timed_out r s h =
      fail_if_exhausted-IsSound _ r (ground arith) (ground (arith, h))
  react-IsSound w port_timed_out r s h =
      fail_if_exhausted-IsSound _ r (ground arith) (ground (arith, h))
  react-IsSound w cmd_timed_out r s h =
      fail_if_exhausted-IsSound _ r (ground arith) (ground (arith, h))
  react-IsSound w (http_answers status) r s h = on_http-IsSound w r s status (ground (arith, h))
  react-IsSound w (port_probed listening) r s h =
      on_port-IsSound w r s listening (ground (arith, h))
  react-IsSound w respawn r s h = ground arith
  react-IsSound w (cmd_ends succeeded) r s h = on_cmd-IsSound w r s succeeded (ground (arith, h))
  react-IsSound w (delay_elapsed alive) r s h = on_delay-IsSound w r s alive
  react-IsSound w flush r s h = s

  -- Whatever happens, and in whichever order: while the loop runs, a caller that waits is told nothing
  -- before the daemon is ready, and then that it is, exactly once, and the hook is fired exactly once.
  -- When the loop is over the caller has been told something exactly once. A daemon that is killed
  -- because its checks have timed out was never ready, and the caller is told the code 124.
  pub rounds-IsSound : (es : List Event) → IsSound (rounds c (watch c) es)
  rounds-IsSound es =
      rounds_keep c IsSound (λ w e r t s. react-IsSound w e r s t) (watch c) es watch-IsSound
