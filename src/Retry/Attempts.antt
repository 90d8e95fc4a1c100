-- ===== src/Retry/Attempts.antt =====
-- How often a daemon that fails is started again: `check_retry` of src/supervisor/retry.rs with what
-- src/supervisor/lifecycle.rs writes to the state when it starts a process and when that ends.
use pitchfork.Prelude.{
  ℕ, ◌+◌, ◌≡◌, refl, ◌∙◌, ap, true, false, none, some, Option, List, [], ◌∷◌, length, arith,
  Option-cases, inl, inr, ltb, if◌then◌else◌,
}
use pitchfork.Text.{Text}
use pitchfork.DaemonId.{DaemonId}
use pitchfork.Config.{FilePath}
use pitchfork.Daemon.{Daemon, RunOptions, Configs, to_run_options}
use pitchfork.Daemon.Options.{Procs, builder, from_run_options, merge}
use pitchfork.Map.{id_key}
use pitchfork.Lifecycle.Launch.{Host, launched_opts}
use pitchfork.Lifecycle.Exit.{ExitStatus, fail, on_fail, on_exit, exited_opts, hooks_to_fire}
use pitchfork.Retry.{is_errored, needs_retry, exhausted_opts, retry_opts}

-- A daemon without a command is not retried again, and keeps its status.
exhausted :
    (procs : Procs) (id : DaemonId) (d : Daemon)
    → let d' = merge procs (exhausted_opts id d) (some d) in
      (needs_retry d' ≡ false) × (d'.status ≡ d.status) × (d'.retry ≡ d.retry)
unfolding needs_retry merge exhausted_opts builder
exhausted procs id d = (ground arith, refl, refl)

-- What happens at an attempt: the process that is started, its ports, and how it ends; and the
-- processes that there are when it is started and when it has ended.
pub record Attempt : Type 0 where
  pub host : Host
  pub pid : ℕ
  pub resolved : List ℕ
  pub ready_port : Option ℕ
  pub status : ExitStatus
  pub procs : Procs

module _ (configs : Configs) (cwd : FilePath) (cmd : List Text) where
  -- The options of the next attempt at the daemon.
  abbrev pub next : Daemon → RunOptions
  next d = retry_opts configs cwd d cmd

  -- The daemon in the state after an attempt: it is started with these options, and its process
  -- fails.
  unfoldable pub fail_once : Attempt → Daemon → Daemon
  unfolding launched_opts exited_opts
  fail_once a d =
      let launched =
        merge a.host.procs (launched_opts a.host (next d) a.pid a.resolved a.ready_port) (some d) in
      merge a.procs (exited_opts d.id fail a.status) (some launched)

  unfoldable pub fail_each : List Attempt → Daemon → Daemon
  unfolding fail_once
  fail_each [] d = d
  fail_each (a ∷ more) d = fail_each more (fail_once a d)

  -- An errored daemon without a process that may be retried at all.
  record IsRetriable (d : Daemon) : Type 0 where
    errored : is_errored d.status ≡ true
    no_process : d.pid ≡ none
    allowed : ltb 0 d.retry.count ≡ true
    command : d.cmd ≡ some cmd

  fail_once-IsRetriable : (a : Attempt) (d : Daemon) → IsRetriable d → IsRetriable (fail_once a d)
  unfolding fail_once launched_opts exited_opts retry_opts from_run_options merge to_run_options
      builder
  fail_once-IsRetriable a d p = record {
    errored = refl;
    no_process = refl;
    allowed = p.allowed;
    command = refl;
  }

  fail_each-IsRetriable :
      (attempts : List Attempt) (d : Daemon) → IsRetriable d → IsRetriable (fail_each attempts d)
  unfolding fail_each
  fail_each-IsRetriable [] d p = p
  fail_each-IsRetriable (a ∷ more) d p =
      fail_each-IsRetriable more (fail_once a d) (fail_once-IsRetriable a d p)

  fail_once-count :
      (a : Attempt) (d : Daemon)
      → ((fail_once a d).retry ≡ d.retry) × ((fail_once a d).retry_count ≡ d.retry_count + 1)
  unfolding fail_once launched_opts exited_opts retry_opts from_run_options merge to_run_options
      builder
  fail_once-count a d = (refl, refl)

  retriable-fail_each :
      (attempts : List Attempt) (d : Daemon)
      → IsRetriable d
      → needs_retry (fail_each attempts d) ≡ ltb (d.retry_count + length attempts) d.retry.count
  unfolding fail_each needs_retry
  retriable-fail_each [] d p = ground (arith, p.errored, p.no_process, p.allowed)
  retriable-fail_each (a ∷ more) d p =
      let (same, one_more) = fail_once-count a d in
      let k = length more in
      retriable-fail_each more (fail_once a d) (fail_once-IsRetriable a d p)
      ∙ ap (λ n. ltb (n + k) (fail_once a d).retry.count) one_more
      ∙ ap (λ retry. ltb (d.retry_count + 1 + k) retry.count) same
      ∙ ap (λ n. ltb n d.retry.count) (omega arith)

  -- The hooks at the end of an attempt.
  hooks-fail_once :
      (a : Attempt) (d : Daemon)
      → IsRetriable d
      → hooks_to_fire fail (next d).retry_count (next d).retry
        ≡ (if needs_retry (fail_once a d) then [] else on_fail ∷ on_exit ∷ [])
  unfolding hooks_to_fire fail_once launched_opts exited_opts retry_opts from_run_options merge
      to_run_options builder needs_retry
  hooks-fail_once a d p = ground (arith, p.allowed)

  -- A daemon with a command that may be retried and whose process fails each time is retried as
  -- often as attempts remain, and then no more. The hooks of a failure are fired at the end of an
  -- attempt exactly if it is not retried after it.
  pub needs_retry-fail_each :
      (attempts : List Attempt) (a : Attempt) (d : Daemon)
      → needs_retry d ≡ true
      → d.cmd ≡ some cmd
      → let d' = fail_each attempts d in
        (needs_retry d' ≡ ltb (d.retry_count + length attempts) d.retry.count)
        × (hooks_to_fire fail (next d').retry_count (next d').retry
            ≡ (if needs_retry (fail_once a d') then [] else on_fail ∷ on_exit ∷ []))
  needs_retry-fail_each attempts a d h has = (
    retriable-fail_each attempts d start,
    hooks-fail_once a (fail_each attempts d) (fail_each-IsRetriable attempts d start),
  )
    where
      start : IsRetriable d
      start =
          unfold needs_retry in
          record {
            errored = ground (arith, h);
            no_process = elim (Option-cases d.pid) [
              | inl e ↦ e
              | inr (pid, e) ↦ ground (arith, h, e)
            ];
            allowed = ground (arith, h);
            command = has;
          }
