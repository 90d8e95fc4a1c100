-- ===== src/Lifecycle/Run/Attempts.antt =====
-- How often `run` of src/supervisor/lifecycle.rs tries.
use pitchfork.Prelude.{
  ℕ, zero, suc, ◌+◌, ◌-◌, ◌≡◌, ◌≤◌, ◌<◌, refl, ap, subst, ltb, Bool, true, false, ◌&&◌, some, List,
  [], ◌∷◌, map, arith, Bool-cases, inl, inr, All, ok, ◌⊎◌,
}
use pitchfork.Daemon.{Daemon, RunOptions}
use pitchfork.Map.{remove, id_key}
use pitchfork.State.{StateFile}
use pitchfork.State.Access.{get_daemon}
use pitchfork.Ipc.{daemon_already_running}
use pitchfork.Lifecycle.Ports.{u32_mod}
use pitchfork.Lifecycle.Run.{
  Launch, Running, backoff_secs, failed_code, attempt_once, back_off, attempts_from, is_active,
  launch,
}

-- The numbers below `n`, the greatest one first.
abbrev pub countdown : ℕ → List ℕ
countdown zero = []
countdown (suc n) = n ∷ countdown n

backoff_secs-le : (attempt : ℕ) → backoff_secs attempt ≤ 3600
unfolding backoff_secs
backoff_secs-le attempt = ground arith

module _ (run_once : RunOptions → StateFile → StateFile × Launch)
    (sleep : ℕ → StateFile → StateFile) (opts : RunOptions) where
  abbrev pub numbered_opts : ℕ → RunOptions
  numbered_opts n = record opts { retry_count = n }

  -- So far `attempt` attempts were made, numbered from 0. Each failed and was followed by its hook and
  -- a wait.
  pub record Tried (attempt : ℕ) (r : Running) : Type 0 where
    pub numbered : map (λ t. t.0) r.tries ≡ map numbered_opts (countdown attempt)
    pub failed : All (λ t. failed_code t.1 ≡ true) r.tries
    pub hooks : r.retry_hooks ≡ map suc (countdown attempt)
    pub waits : r.sleeps ≡ map backoff_secs (countdown attempt)
    pub bounds : All (λ secs. secs ≤ 3600) r.sleeps

  -- The options of the last attempt, which has the number `last`. Where the number of attempts
  -- saturates, the attempt after all the retries is not numbered.
  abbrev pub IsFinal : (last : ℕ) → RunOptions → Type 0
  IsFinal last final =
      (final ≡ numbered_opts last)
      ⊎ ((final ≡ opts) × (last ≡ opts.retry.count) × (opts.retry.count + 1 ≡ u32_mod))

  -- The attempts have the options of the run and are numbered from 0. Each but the last one failed
  -- and was followed by the hook of a retry with its number and by a wait, of an hour at most. There
  -- are no more of them than retries and the first one; a failure is returned only after all of
  -- them.
  pub record IsRetried (r : Running) (result : Launch) : Type 0 where
    pub last : ℕ
    pub final : RunOptions
    pub earlier : List (RunOptions × Launch)
    pub made : r.tries ≡ (final, result) ∷ earlier
    pub final_opts : IsFinal last final
    pub numbered : map (λ t. t.0) earlier ≡ map numbered_opts (countdown last)
    pub failed : All (λ t. failed_code t.1 ≡ true) earlier
    pub hooks : r.retry_hooks ≡ map suc (countdown last)
    pub waits : r.sleeps ≡ map backoff_secs (countdown last)
    pub bounds : All (λ secs. secs ≤ 3600) r.sleeps
    pub bounded : last ≤ opts.retry.count
    pub exhausted : failed_code result ≡ true → last ≡ opts.retry.count

  abbrev pub cancelled : Running → Running
  cancelled r = record r { pending_autostops = remove opts.id r.pending_autostops }

  -- The daemon has a process and keeps it; only the deadline to stop it is gone.
  abbrev pub IsRefused : Running → Running → Launch → Type 0
  IsRefused r r' result =
      (d : Daemon) × (get_daemon opts.id r.state ≡ some d)
      × (is_active d ≡ true)
      × (opts.force ≡ false)
      × (r' ≡ cancelled r)
      × (result ≡ ok daemon_already_running)

  abbrev pub Answered : Running → Running × Launch → Type 0
  Answered r (r', result) = IsRefused r r' result ⊎ IsRetried r' result

  -- The attempt fails and is not the last one.
  abbrev goes_on : ℕ → Running → Bool
  goes_on attempt r =
      failed_code (run_once (record opts { retry_count = attempt }) r.state).1
      && ltb attempt opts.retry.count

  is_last : (attempt : ℕ) (r : Running) → attempt + 0 ≡ opts.retry.count → goes_on attempt r ≡ false
  is_last attempt r e = ground arith

  -- What an attempt, its hook and its wait leave.
  abbrev failed_attempt : ℕ → Running → Running
  failed_attempt attempt r =
      back_off run_once sleep attempt
        (attempt_once run_once sleep (record opts { retry_count = attempt }) r).0

  stops :
      (attempt : ℕ) (r : Running)
      → attempt ≤ opts.retry.count
      → Tried attempt r
      → goes_on attempt r ≡ false
      → let (r', result) = attempt_once run_once sleep (record opts { retry_count = attempt }) r in
        IsRetried r' result
  unfolding attempt_once
  stops attempt r e t over = record {
    last = attempt;
    final = numbered_opts attempt;
    earlier = r.tries;
    made = refl;
    final_opts = inl refl;
    numbered = t.numbered;
    failed = t.failed;
    hooks = t.hooks;
    waits = t.waits;
    bounds = t.bounds;
    bounded = e;
    exhausted = λ f. ground (arith, over, f);
  }

  -- The attempt without a number.
  stops_unnumbered :
      (attempt : ℕ) (r : Running)
      → attempt ≡ opts.retry.count
      → opts.retry.count + 1 ≡ u32_mod
      → Tried attempt r
      → let (r', result) = attempt_once run_once sleep opts r in IsRetried r' result
  unfolding attempt_once
  stops_unnumbered attempt r e full t = record {
    last = attempt;
    final = opts;
    earlier = r.tries;
    made = refl;
    final_opts = inr (refl, e, full);
    numbered = t.numbered;
    failed = t.failed;
    hooks = t.hooks;
    waits = t.waits;
    bounds = t.bounds;
    bounded = omega (arith, e);
    exhausted = λ f. e;
  }

  Tried-failed_attempt :
      (attempt : ℕ) (r : Running)
      → goes_on attempt r ≡ true
      → Tried attempt r
      → Tried (suc attempt) (failed_attempt attempt r)
  unfolding attempt_once back_off
  Tried-failed_attempt attempt r again t = record {
    numbered = ap (λ l. numbered_opts attempt ∷ l) t.numbered;
    failed = (ground (arith, again), t.failed);
    hooks = ap (λ ns. suc attempt ∷ ns) t.hooks;
    waits = ap (λ ns. backoff_secs attempt ∷ ns) t.waits;
    bounds = (backoff_secs-le attempt, t.bounds);
  }

  -- There is a numbered attempt for each retry and the first one.
  attempts_from-IsRetried :
      (rounds attempt : ℕ) (r : Running)
      → attempt + rounds ≡ opts.retry.count
      → Tried attempt r
      → let (r', result) = attempts_from run_once sleep opts (suc rounds) attempt r in
        IsRetried r' result
  unfolding attempts_from attempt_once back_off
  attempts_from-IsRetried zero attempt r e t =
      rw (is_last attempt r e) (stops attempt r (omega arith) t (is_last attempt r e))
  attempts_from-IsRetried (suc rounds) attempt r e t = elim (Bool-cases (goes_on attempt r)) [
    | inl again ↦ rw again (
        attempts_from-IsRetried rounds (suc attempt) (failed_attempt attempt r) (omega arith)
          (Tried-failed_attempt attempt r again t))
    | inr over ↦ rw over (stops attempt r (omega arith) t over)
  ]

  -- There is one less, and the last attempt comes after them.
  attempts_from-saturated :
      (rounds attempt : ℕ) (r : Running)
      → attempt + rounds ≡ opts.retry.count
      → opts.retry.count + 1 ≡ u32_mod
      → Tried attempt r
      → let (r', result) = attempts_from run_once sleep opts rounds attempt r in IsRetried r' result
  unfolding attempts_from attempt_once back_off
  attempts_from-saturated zero attempt r e full t =
      stops_unnumbered attempt r (omega (arith, e)) full t
  attempts_from-saturated (suc rounds) attempt r e full t = elim (Bool-cases (goes_on attempt r)) [
    | inl again ↦ rw again (
        attempts_from-saturated rounds (suc attempt) (failed_attempt attempt r) (omega arith) full
          (Tried-failed_attempt attempt r again t))
    | inr over ↦ rw over (stops attempt r (omega arith) t over)
  ]

  pub launch-IsRetried :
      (r : Running)
      → opts.wait_ready ≡ true
      → 0 < opts.retry.count
      → opts.retry.count < u32_mod
      → r.tries ≡ []
      → r.retry_hooks ≡ []
      → r.sleeps ≡ []
      → let (r', result) = launch run_once sleep opts r in IsRetried r' result
  unfolding launch
  launch-IsRetried r w p small t h s =
      let waits : (opts.wait_ready && ltb 0 opts.retry.count) ≡ true = ground arith in
      let none_yet : Tried 0 r = record {
        numbered = rw t refl;
        failed = rw t tt;
        hooks = rw h refl;
        waits = rw s refl;
        bounds = rw s tt;
      } in
      rw waits (elim (Bool-cases (ltb (opts.retry.count + 1) u32_mod)) [
        | inl fits ↦ rw fits (attempts_from-IsRetried opts.retry.count 0 r (omega arith) none_yet)
        | inr full ↦
            let top : opts.retry.count ≡ u32_mod - 1 = ground (arith, full, small) in
            rw full (
              subst
                (λ n.
                  IsRetried (attempts_from run_once sleep opts n 0 r).0
                    (attempts_from run_once sleep opts n 0 r).1)
                top
                (attempts_from-saturated opts.retry.count 0 r (omega arith) (omega (arith, top))
                  none_yet))
      ])
