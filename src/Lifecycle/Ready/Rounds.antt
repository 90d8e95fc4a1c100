-- ===== src/Lifecycle/Ready/Rounds.antt =====
-- Induction over the rounds of the loop of src/supervisor/lifecycle.rs that watches a process.
use pitchfork.Prelude.{◌≡◌, true, false, not, ◌&&◌, List, [], ◌∷◌, arith, Bool-cases, inl, inr}
use pitchfork.Lifecycle.Ready.{Checks, Watch, Event, enabled, react, round, rounds}

module _ (c : Checks) (P : Watch → Type 0)
    (keeps : (w : Watch) (e : Event)
      → w.over ≡ false
      → enabled c w e ≡ true
      → P w
      → P (react c w e)) where
  round_keeps : (w : Watch) (e : Event) → P w → P (round c w e)
  unfolding round
  round_keeps w e p = elim (Bool-cases (not w.over && enabled c w e)) [
    | inl taken ↦ rw taken (keeps w e (ground (arith, taken)) (ground (arith, taken)) p)
    | inr passed ↦ rw passed p
  ]

  -- What each branch that is taken keeps holds after any events.
  pub rounds_keep : (w : Watch) (es : List Event) → P w → P (rounds c w es)
  unfolding rounds
  rounds_keep w [] p = p
  rounds_keep w (e ∷ es) p = rounds_keep (round c w e) es (round_keeps w e p)
