-- ===== src/Lifecycle/Run.antt =====
-- `run` of src/supervisor/lifecycle.rs: a daemon is run, and run again after a failure while the
-- caller waits. A single attempt is `run_once`, which is any function here; so is what other tasks do
-- to the state while `run` sleeps.
pub mod Attempts
use pitchfork.Prelude.{
  ℕ, zero, suc, ◌+◌, ◌-◌, ◌^◌, ◌==◌, ltb, leb, Bool, true, false, not, ◌&&◌, Option, none, some,
  List, [], ◌∷◌, if◌then◌else◌, ℤ, Result, ok, err,
}
use pitchfork.DaemonId.{DaemonId}
use pitchfork.Config.{StopConfig}
use pitchfork.Daemon.{Daemon, RunOptions}
use pitchfork.Daemon.Options.{Procs}
use pitchfork.Map.{Map, remove, id_key, is_some}
use pitchfork.State.{StateFile}
use pitchfork.State.Access.{get_daemon}
use pitchfork.Ipc.{IpcResponse, daemon_failed_with_code, daemon_already_running}
use pitchfork.Lifecycle.Ports.{u32_mod}
use pitchfork.Lifecycle.Exit.{is_stopped, is_stopping}
use pitchfork.Lifecycle.Stop.{Killed, stop}

-- An attempt that the operating system does not allow.
pub data LaunchError : Type 0 where
  not_spawned : LaunchError

abbrev pub Launch : Type 0
Launch = Result LaunchError IpcResponse

-- The state and the deadlines of the supervisor; and the attempts that were made with what came
-- of each, the numbers that the hook of a retry was fired with and the seconds slept, each the last one first.
pub record Running : Type 0 where
  pub state : StateFile
  pub pending_autostops : Map DaemonId ℕ
  pub tries : List (RunOptions × Launch)
  pub retry_hooks : List ℕ
  pub sleeps : List ℕ

-- The daemon has a process that is not being stopped.
unfoldable pub is_active : Daemon → Bool
is_active d = not (is_stopping d.status) && not (is_stopped d.status) && is_some d.pid

-- `count.saturating_add(1)`
abbrev pub max_attempts : ℕ → ℕ
max_attempts count = if ltb (count + 1) u32_mod then suc count else u32_mod - 1

-- `2u64.saturating_pow(attempt).min(3600)`
unfoldable pub backoff_secs : ℕ → ℕ
backoff_secs attempt =
    let pow = if ltb attempt 64 then 2 ^ attempt else 2 ^ 64 - 1 in
    if ltb pow 3600 then pow else 3600

-- Whether the process failed, which alone is a reason to try again.
abbrev pub failed_code : Launch → Bool
failed_code (ok (daemon_failed_with_code exit_code)) = true
failed_code (ok response) = false
failed_code (err e) = false

module _ (run_once : RunOptions → StateFile → StateFile × Launch)
    (sleep : ℕ → StateFile → StateFile) where
  unfoldable pub attempt_once : RunOptions → Running → Running × Launch
  attempt_once opts r =
      let (state', result) = run_once opts r.state in
      (record r { state = state'; tries = (opts, result) ∷ r.tries }, result)

  -- The hook of a retry, and the wait before it.
  unfoldable pub back_off : ℕ → Running → Running
  back_off attempt r = record r {
    state = sleep (backoff_secs attempt) r.state;
    retry_hooks = suc attempt ∷ r.retry_hooks;
    sleeps = backoff_secs attempt ∷ r.sleeps;
  }

  -- The attempts from `attempt` on, of which there are `rounds`.
  unfoldable pub attempts_from :
      (opts : RunOptions) (rounds attempt : ℕ) → Running → Running × Launch
  unfolding attempt_once
  attempts_from opts zero attempt r = attempt_once opts r
  attempts_from opts (suc rounds) attempt r =
      let (r', result) = attempt_once (record opts { retry_count = attempt }) r in
      let again = attempts_from opts rounds (suc attempt) (back_off attempt r') in
      if failed_code result && ltb attempt opts.retry.count then again else (r', result)

  unfoldable pub launch : RunOptions → Running → Running × Launch
  unfolding attempts_from attempt_once
  launch opts r =
      let loop = attempts_from opts (max_attempts opts.retry.count) 0 r in
      if opts.wait_ready && ltb 0 opts.retry.count then loop else attempt_once opts r

  -- What becomes of a daemon that is known, or not; `r'` is without the deadline to stop it.
  unfoldable pub run_known :
      Procs
      → (ℕ → StopConfig → StateFile → Killed)
      → RunOptions
      → Running
      → Option Daemon
      → Running × Launch
  unfolding is_active launch
  run_known procs kill opts r' none = launch opts r'
  run_known procs kill opts r' (some d) =
      if is_active d
      then (if opts.force
          then launch opts (record r' { state = (stop procs kill opts.id r'.state).0 })
          else (r', ok daemon_already_running))
      else launch opts r'

  unfoldable pub run :
      Procs → (ℕ → StopConfig → StateFile → Killed) → RunOptions → Running → Running × Launch
  unfolding run_known
  run procs kill opts r =
      run_known procs kill opts
        (record r { pending_autostops = remove opts.id r.pending_autostops })
        (get_daemon opts.id r.state)
