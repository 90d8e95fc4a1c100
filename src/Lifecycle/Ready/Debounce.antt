-- ===== src/Lifecycle/Ready/Debounce.antt =====
-- How often the hook on output is fired, of the loop of src/supervisor/lifecycle.rs that watches a
-- process.
use pitchfork.Prelude.{
  ℕ, ◌-◌, ◌≤◌, ◌≡◌, refl, true, ◌&&◌, Option, none, some, List, [], ◌∷◌, arith, Bool-cases, inl,
  inr,
}
use pitchfork.Config.{Duration}
use pitchfork.Lifecycle.Ready.Rounds.{rounds_keep}
use pitchfork.Lifecycle.Ready.{
  OutputHook, Checks, Watch, Event, process_exits, output, http_timed_out, output_timed_out,
  port_timed_out, cmd_timed_out, http_answers, port_probed, respawn, cmd_ends, delay_elapsed, flush,
  watch, fail_if_exhausted, on_exit, hook_matches, may_fire, check_output, fire_output_hook,
  on_http, on_port, on_cmd, on_delay, react, rounds,
}

-- Instants, the last one first, each at least `debounce` after the one before.
abbrev pub Spaced : Duration → List ℕ → Type 0
Spaced debounce [] = Unit
Spaced debounce (t ∷ []) = Unit
Spaced debounce (t ∷ u ∷ ts) = (debounce ≤ t - u) × Spaced debounce (u ∷ ts)

abbrev first : List ℕ → Option ℕ
first [] = none
first (t ∷ ts) = some t

Spaced-fire :
    (debounce now : ℕ) (ts : List ℕ) (last : Option ℕ)
    → last ≡ first ts
    → may_fire debounce last now ≡ true
    → Spaced debounce ts
    → Spaced debounce (now ∷ ts)
Spaced-fire debounce now [] last e h s = tt
Spaced-fire debounce now (t ∷ ts) last e h s = (ground (arith, e, h), s)

module _ (c : Checks) (h : OutputHook) (hooked : c.on_output_hook ≡ some h) where
  abbrev Fires : Watch → Type 0
  Fires w = Spaced h.debounce w.on_output × (w.on_output_last_fired ≡ first w.on_output)

  -- A step that does not fire the hook.
  Fires-same :
      (w u : Watch)
      → u.on_output ≡ w.on_output
      → u.on_output_last_fired ≡ w.on_output_last_fired
      → Fires w
      → Fires u
  Fires-same w u e k f = rw (e, k) f

  fire_output_hook-Fires :
      (line : _) (now : ℕ) (w : Watch) → Fires w → Fires (fire_output_hook c line now w)
  unfolding fire_output_hook
  fire_output_hook-Fires line now w f =
      rw hooked
        (elim (Bool-cases (hook_matches h line && may_fire h.debounce w.on_output_last_fired now)) [
          | inl fires ↦ rw fires (
            Spaced-fire h.debounce now w.on_output w.on_output_last_fired f.1
                (ground (arith, fires)) f.0,
            refl,
          )
          | inr quiet ↦ rw quiet f
        ])

  react-Fires : (w : Watch) (e : Event) → Fires w → Fires (react c w e)
  unfolding react on_exit check_output fail_if_exhausted on_http on_port on_cmd on_delay
  react-Fires w (process_exits status) f =
      Fires-same w (on_exit c status w) (ground arith) (ground arith) f
  react-Fires w (output line now) f =
      fire_output_hook-Fires line now (check_output c line w)
        (Fires-same w (check_output c line w) (ground arith) (ground arith) f)
  react-Fires w http_timed_out f =
      Fires-same w (react c w http_timed_out) (ground arith) (ground arith) f
  react-Fires w output_timed_out f =
      Fires-same w (react c w output_timed_out) (ground arith) (ground arith) f
  react-Fires w port_timed_out f =
      Fires-same w (react c w port_timed_out) (ground arith) (ground arith) f
  react-Fires w cmd_timed_out f =
      Fires-same w (react c w cmd_timed_out) (ground arith) (ground arith) f
  react-Fires w (http_answers status) f =
      Fires-same w (on_http c status w) (ground arith) (ground arith) f
  react-Fires w (port_probed listening) f =
      Fires-same w (on_port c listening w) (ground arith) (ground arith) f
  react-Fires w respawn f = f
  react-Fires w (cmd_ends succeeded) f =
      Fires-same w (on_cmd c succeeded w) (ground arith) (ground arith) f
  react-Fires w (delay_elapsed running) f =
      Fires-same w (on_delay c running w) (ground arith) (ground arith) f
  react-Fires w flush f = f

  -- Between two firings of the hook on output there is at least the time of its debounce.
  pub rounds-Spaced : (es : List Event) → Spaced h.debounce (rounds c (watch c) es).on_output
  unfolding watch
  rounds-Spaced es =
      (rounds_keep c Fires (λ w e r t f. react-Fires w e f) (watch c) es (tt, refl)).0
