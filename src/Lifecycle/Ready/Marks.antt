-- ===== src/Lifecycle/Ready/Marks.antt =====
-- Which timeouts have passed where the loop of src/supervisor/lifecycle.rs that watches a process marks
-- a check as exhausted.
use pitchfork.Prelude.{
  ◌≡◌, refl, sym, ap, ◌∙◌, Bool, true, false, Option, none, some, List, [], ◌∷◌, ◌++◌, append_assoc,
  arith, if_holds,
}
use pitchfork.Config.{Duration}
use pitchfork.Map.{is_some}
use pitchfork.Lifecycle.Ready.{
  Checks, Watch, Event, http_timed_out, output_timed_out, port_timed_out, cmd_timed_out, watch,
  remains, fail_if_exhausted, any_ready_check_remaining, enabled, rounds,
}

module _ (c : Checks) where
  -- Among the events is this one, and at it the branch was taken: the loop was not over and the branch
  -- could be taken.
  abbrev pub Taken : Event → List Event → Type 0
  Taken e es =
      (before : List Event) × (after : List Event) × (es ≡ before ++ e ∷ after)
      × ((rounds c (watch c) before).over ≡ false)
      × (enabled c (rounds c (watch c) before) e ≡ true)

  pub Taken-append : (e : Event) (es more : List Event) → Taken e es → Taken e (es ++ more)
  Taken-append e es more (before, after, split, going, could) = (
    before,
    after ++ more,
    ap (λ l. l ++ more) split ∙ append_assoc before (e ∷ after) more,
    going,
    could,
  )

  -- The check, if it is configured, has a timeout, and that has passed.
  abbrev pub Spent {ℓ} : {A : Type ℓ} → Option A → (A → Option Duration) → Type 0 → Type 0
  Spent none timeout passed = Unit
  Spent (some a) timeout passed = (is_some (timeout a) ≡ true) × passed

  remains-Spent {ℓ} :
      {A : Type ℓ} (check : Option A) (timeout : A → Option Duration) (exhausted : Bool)
      {passed : Type 0}
      → (exhausted ≡ true → passed)
      → remains check timeout exhausted ≡ false
      → Spent check timeout passed
  remains-Spent none timeout exhausted p h = tt
  remains-Spent (some a) timeout exhausted p h = (ground (arith, h), p (ground (arith, h)))

  pub Spent-more {ℓ} :
      {A : Type ℓ} (check : Option A) (timeout : A → Option Duration) (e : Event)
      (done : List Event) (next : Event)
      → Spent check timeout (Taken e done)
      → Spent check timeout (Taken e (done ++ next ∷ []))
  Spent-more none timeout e done next s = tt
  Spent-more (some a) timeout e done next (has, taken) =
      (has, Taken-append e done (next ∷ []) taken)

  -- The timeouts of all configured checks were among these events.
  abbrev pub AllSpent : List Event → Type 0
  AllSpent es =
      Spent c.ready_output (λ o. o.timeout) (Taken output_timed_out es)
      × Spent c.ready_port_config (λ p. p.timeout) (Taken port_timed_out es)
      × Spent c.ready_http (λ h. h.timeout) (Taken http_timed_out es)
      × Spent c.ready_cmd (λ x. x.timeout) (Taken cmd_timed_out es)

  -- Each check that is marked as exhausted has timed out, and a process that was killed is one whose
  -- checks all have.
  pub record Tells (done : List Event) (w : Watch) : Type 0 where
    pub output_spent : w.output_exhausted ≡ true → Taken output_timed_out done
    pub port_spent : w.port_exhausted ≡ true → Taken port_timed_out done
    pub http_spent : w.http_exhausted ≡ true → Taken http_timed_out done
    pub cmd_spent : w.cmd_exhausted ≡ true → Taken cmd_timed_out done
    pub gave_up : w.killed ≡ true → (w.over ≡ true) × AllSpent done

  -- The marks of the checks are as before, and the process is alive.
  abbrev pub SameMarks : Watch → Watch → Type 0
  SameMarks w w' =
      (w'.output_exhausted ≡ w.output_exhausted)
      × (w'.port_exhausted ≡ w.port_exhausted)
      × (w'.http_exhausted ≡ w.http_exhausted)
      × (w'.cmd_exhausted ≡ w.cmd_exhausted)
      × (w'.killed ≡ false)

  pub Tells-same :
      (done : List Event) (e : Event) (w w' : Watch)
      → SameMarks w w'
      → Tells done w
      → Tells (done ++ e ∷ []) w'
  Tells-same done e w w' (o, p, h, x, alive) t = record {
    output_spent = λ m. Taken-append output_timed_out done (e ∷ []) (t.output_spent (sym o ∙ m));
    port_spent = λ m. Taken-append port_timed_out done (e ∷ []) (t.port_spent (sym p ∙ m));
    http_spent = λ m. Taken-append http_timed_out done (e ∷ []) (t.http_spent (sym h ∙ m));
    cmd_spent = λ m. Taken-append cmd_timed_out done (e ∷ []) (t.cmd_spent (sym x ∙ m));
    gave_up = λ k. absurd (ground (arith, k, alive));
  }

  none_remaining-AllSpent :
      (done : List Event) (w : Watch)
      → Tells done w
      → any_ready_check_remaining c.ready_output w.output_exhausted c.ready_port_config
          w.port_exhausted c.ready_http w.http_exhausted c.ready_cmd w.cmd_exhausted
        ≡ false
      → AllSpent done
  unfolding any_ready_check_remaining
  none_remaining-AllSpent done w t h = (
    remains-Spent c.ready_output (λ o. o.timeout) w.output_exhausted t.output_spent
        (ground (arith, h)),
    remains-Spent c.ready_port_config (λ p. p.timeout) w.port_exhausted t.port_spent
        (ground (arith, h)),
    remains-Spent c.ready_http (λ h. h.timeout) w.http_exhausted t.http_spent (ground (arith, h)),
    remains-Spent c.ready_cmd (λ x. x.timeout) w.cmd_exhausted t.cmd_spent (ground (arith, h)),
  )

  Tells-killed :
      (done : List Event) (w w' : Watch)
      → SameMarks w (record w' { killed = false })
      → w'.over ≡ true
      → AllSpent done
      → Tells done w
      → Tells done w'
  Tells-killed done w w' (o, p, h, x, alive) over all t = record {
    output_spent = λ m. t.output_spent (sym o ∙ m);
    port_spent = λ m. t.port_spent (sym p ∙ m);
    http_spent = λ m. t.http_spent (sym h ∙ m);
    cmd_spent = λ m. t.cmd_spent (sym x ∙ m);
    gave_up = λ k. (over, all);
  }

  pub fail_if_exhausted-Tells :
      (done : List Event) (w : Watch) → Tells done w → Tells done (fail_if_exhausted c w)
  unfolding fail_if_exhausted
  fail_if_exhausted-Tells done w t =
      if_holds (Tells done)
        (any_ready_check_remaining c.ready_output w.output_exhausted c.ready_port_config
          w.port_exhausted c.ready_http w.http_exhausted c.ready_cmd w.cmd_exhausted)
        _ _ (λ some_remain. t)
        (λ none_remain.
          Tells-killed done w _ (ground arith, ground arith, ground arith, ground arith, refl) refl
            (none_remaining-AllSpent done w t none_remain) t)
