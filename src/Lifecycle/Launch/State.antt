-- ===== src/Lifecycle/Launch/State.antt =====
-- What `run_once` of src/supervisor/lifecycle.rs does to the state.
use pitchfork.Prelude.{ℕ, ◌≡◌, Option, none, some, List, ok, if◌then◌else◌}
use pitchfork.Text.{Text}
use pitchfork.Daemon.{Daemon, running, RunOptions}
use pitchfork.State.{StateFile}
use pitchfork.State.Access.{get_daemon}
use pitchfork.Lifecycle.Ready.{Notice}
use pitchfork.Lifecycle.Run.{Launch}
use pitchfork.Lifecycle.Launch.{Command, started, Host, resolve_ports, command, answer}

module _ (h : Host) (environment : RunOptions → List ℕ → List (Text × Text))
    (watch : RunOptions → ℕ → List ℕ → Option ℕ → StateFile → StateFile × Option Notice)
    (opts : RunOptions) (s : StateFile) where
  -- The attempt leaves the state alone, or it starts a process: with the ports that are free and the
  -- command, and from then on, until the caller is answered, the daemon is in the state with that
  -- process and these ports, and is running.
  pub data Launches : StateFile × Launch → Type 0 where
    no_process :
        (result : Launch)
        → ((cmd : Command) (pid : ℕ) (resolved : List ℕ) (port : Option ℕ)
            → resolve_ports h opts ≡ ok (resolved, port)
            → command h environment opts resolved ≡ ok cmd
            → h.spawn cmd ≡ started pid
            → ⊥)
        → Launches (s, result)
    process :
        (cmd : Command) (pid : ℕ) (resolved : List ℕ) (port : Option ℕ) (u : StateFile) (d : Daemon)
        → resolve_ports h opts ≡ ok (resolved, port)
        → command h environment opts resolved ≡ ok cmd
        → h.spawn cmd ≡ started pid
        → get_daemon opts.id u ≡ some d
        → d.pid ≡ some pid
        → d.status ≡ running
        → d.cmd ≡ some opts.cmd
        → Launches (
          (watch opts pid resolved port u).0,
          ok (answer d (if opts.wait_ready then (watch opts pid resolved port u).1 else none)),
        )
