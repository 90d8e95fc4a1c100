-- ===== src/Lifecycle/Ready/Timeouts.antt =====
-- When the loop of src/supervisor/lifecycle.rs that watches a process gives up on its checks.
use pitchfork.Prelude.{
  ◌≡◌, refl, sym, subst, true, false, not, ◌&&◌, List, [], ◌∷◌, ◌++◌, append-nil, append_assoc,
  arith, Bool-cases, inl, inr, if_holds,
}
use pitchfork.Lifecycle.Ready.{
  Checks, Watch, Event, process_exits, output, http_timed_out, output_timed_out, port_timed_out,
  cmd_timed_out, http_answers, port_probed, respawn, cmd_ends, delay_elapsed, flush, watch, on_exit,
  check_output, fire_output_hook, on_http, on_port, on_cmd, on_delay, enabled, react, round, rounds,
}
use pitchfork.Lifecycle.Ready.Marks.{
  Taken, Taken-append, Spent-more, AllSpent, Tells, SameMarks, Tells-same, fail_if_exhausted-Tells,
}

module _ (c : Checks) where
  -- Timing out is what marks a check.
  abbrev KeepsMarks : Watch → Event → Type 0
  KeepsMarks w http_timed_out = Unit
  KeepsMarks w output_timed_out = Unit
  KeepsMarks w port_timed_out = Unit
  KeepsMarks w cmd_timed_out = Unit
  KeepsMarks w e = SameMarks c w (react c w e)

  keeps_marks : (w : Watch) (e : Event) → w.killed ≡ false → KeepsMarks w e
  unfolding react on_exit check_output fire_output_hook on_http on_port on_cmd on_delay
  keeps_marks w http_timed_out a = tt
  keeps_marks w output_timed_out a = tt
  keeps_marks w port_timed_out a = tt
  keeps_marks w cmd_timed_out a = tt
  keeps_marks w (process_exits status) a =
      (ground arith, ground arith, ground arith, ground arith, ground arith)
  keeps_marks w (output line now) a =
      (ground arith, ground arith, ground arith, ground arith, ground arith)
  keeps_marks w (http_answers status) a =
      (ground arith, ground arith, ground arith, ground arith, ground arith)
  keeps_marks w (port_probed listening) a =
      (ground arith, ground arith, ground arith, ground arith, ground arith)
  keeps_marks w respawn a = (ground arith, ground arith, ground arith, ground arith, ground arith)
  keeps_marks w (cmd_ends succeeded) a =
      (ground arith, ground arith, ground arith, ground arith, ground arith)
  keeps_marks w (delay_elapsed running) a =
      (ground arith, ground arith, ground arith, ground arith, ground arith)
  keeps_marks w flush a = (ground arith, ground arith, ground arith, ground arith, ground arith)

  react-Tells :
      (done : List Event) (w : Watch) (e : Event)
      → w.killed ≡ false
      → Taken c e (done ++ e ∷ [])
      → Tells c done w
      → Tells c (done ++ e ∷ []) (react c w e)
  unfolding react on_exit check_output fire_output_hook on_http on_port on_cmd on_delay
  react-Tells done w http_timed_out a now t =
      let t' = Tells-same c done http_timed_out w w (refl, refl, refl, refl, a) t in
      fail_if_exhausted-Tells c _ _ (record {
        output_spent = t'.output_spent;
        port_spent = t'.port_spent;
        http_spent = λ m. now;
        cmd_spent = t'.cmd_spent;
        gave_up = t'.gave_up;
      })
  react-Tells done w output_timed_out a now t =
      let t' = Tells-same c done output_timed_out w w (refl, refl, refl, refl, a) t in
      fail_if_exhausted-Tells c _ _ (record {
        output_spent = λ m. now;
        port_spent = t'.port_spent;
        http_spent = t'.http_spent;
        cmd_spent = t'.cmd_spent;
        gave_up = t'.gave_up;
      })
  react-Tells done w port_timed_out a now t =
      let t' = Tells-same c done port_timed_out w w (refl, refl, refl, refl, a) t in
      fail_if_exhausted-Tells c _ _ (record {
        output_spent = t'.output_spent;
        port_spent = λ m. now;
        http_spent = t'.http_spent;
        cmd_spent = t'.cmd_spent;
        gave_up = t'.gave_up;
      })
  react-Tells done w cmd_timed_out a now t =
      let t' = Tells-same c done cmd_timed_out w w (refl, refl, refl, refl, a) t in
      fail_if_exhausted-Tells c _ _ (record {
        output_spent = t'.output_spent;
        port_spent = t'.port_spent;
        http_spent = t'.http_spent;
        cmd_spent = λ m. now;
        gave_up = t'.gave_up;
      })
  react-Tells done w (process_exits status) a now t =
      Tells-same c done (process_exits status) w _ (keeps_marks w (process_exits status) a) t
  react-Tells done w (output line now_time) a now t =
      Tells-same c done (output line now_time) w _ (keeps_marks w (output line now_time) a) t
  react-Tells done w (http_answers status) a now t =
      Tells-same c done (http_answers status) w _ (keeps_marks w (http_answers status) a) t
  react-Tells done w (port_probed listening) a now t =
      Tells-same c done (port_probed listening) w _ (keeps_marks w (port_probed listening) a) t
  react-Tells done w respawn a now t = Tells-same c done respawn w _ (keeps_marks w respawn a) t
  react-Tells done w (cmd_ends succeeded) a now t =
      Tells-same c done (cmd_ends succeeded) w _ (keeps_marks w (cmd_ends succeeded) a) t
  react-Tells done w (delay_elapsed running) a now t =
      Tells-same c done (delay_elapsed running) w _ (keeps_marks w (delay_elapsed running) a) t
  react-Tells done w flush a now t = Tells-same c done flush w _ (keeps_marks w flush a) t

  rounds-append :
      (w : Watch) (done es : List Event) → rounds c w (done ++ es) ≡ rounds c (rounds c w done) es
  unfolding rounds
  rounds-append w [] es = refl
  rounds-append w (e ∷ done) es = rounds-append (round c w e) done es

  alive : (done : List Event) (w : Watch) → w.over ≡ false → Tells c done w → w.killed ≡ false
  alive done w going t = elim (Bool-cases w.killed) [
    | inl dead ↦ absurd (ground (arith, (t.gave_up dead).0, going))
    | inr lives ↦ lives
  ]

  Tells-more :
      (done : List Event) (e : Event) (w : Watch) → Tells c done w → Tells c (done ++ e ∷ []) w
  Tells-more done e w t = record {
    output_spent = λ m. Taken-append c output_timed_out done (e ∷ []) (t.output_spent m);
    port_spent = λ m. Taken-append c port_timed_out done (e ∷ []) (t.port_spent m);
    http_spent = λ m. Taken-append c http_timed_out done (e ∷ []) (t.http_spent m);
    cmd_spent = λ m. Taken-append c cmd_timed_out done (e ∷ []) (t.cmd_spent m);
    gave_up = λ k.
        let (over, (o, p, h, x)) = t.gave_up k in
        (
          over,
          (
            Spent-more c c.ready_output _ output_timed_out done e o,
            Spent-more c c.ready_port_config _ port_timed_out done e p,
            Spent-more c c.ready_http _ http_timed_out done e h,
            Spent-more c c.ready_cmd _ cmd_timed_out done e x,
          ),
        );
  }

  step :
      (done : List Event) (e : Event)
      → Tells c done (rounds c (watch c) done)
      → Tells c (done ++ e ∷ []) (rounds c (watch c) (done ++ e ∷ []))
  unfolding round rounds
  step done e t =
      let w = rounds c (watch c) done in
      rw (rounds-append (watch c) done (e ∷ [])) (
        if_holds (Tells c (done ++ e ∷ [])) (not w.over && enabled c w e) _ _
          (λ taken.
            let going : w.over ≡ false = ground (arith, taken) in
            react-Tells done w e (alive done w going t)
              (done, [], refl, going, ground (arith, taken)) t)
          (λ passed. Tells-more done e w t))

  rounds-Tells :
      (es done : List Event)
      → Tells c done (rounds c (watch c) done)
      → Tells c (done ++ es) (rounds c (watch c) (done ++ es))
  rounds-Tells [] done t = subst (λ l. Tells c l (rounds c (watch c) l)) (sym (append-nil done)) t
  rounds-Tells (e ∷ es) done t =
      subst (λ l. Tells c l (rounds c (watch c) l)) (append_assoc done (e ∷ []) es)
        (rounds-Tells es (done ++ e ∷ []) (step done e t))

  -- A process is killed for its checks only if each check that is configured has a timeout, and the
  -- timeout of each was among the events, at a time when the loop went on and waited for it.
  pub rounds-AllSpent : (es : List Event) → (rounds c (watch c) es).killed ≡ true → AllSpent c es
  unfolding watch rounds
  rounds-AllSpent es k =
      ((rounds-Tells es [] (record {
        output_spent = λ m. cc;
        port_spent = λ m. cc;
        http_spent = λ m. cc;
        cmd_spent = λ m. cc;
        gave_up = λ m. cc;
      })).gave_up
        k).1
