-- ===== src/Batch/Start/Complete.antt =====
-- What `start_daemons` of src/ipc/batch.rs has done when it tells of no failure.
use pitchfork.Prelude.{ℕ, ◌≡◌, Bool, false, not, Option, List, keep, Result, ok, err}
use pitchfork.DaemonId.{DaemonId}
use pitchfork.Config.{PitchforkTomlDaemon, Daemons}
use pitchfork.Daemon.{Daemon, RunOptions}
use pitchfork.Deps.{Ids, elem, contains_key, DependencyError}
use pitchfork.Deps.Resolve.{IsIteration}
use pitchfork.Similar.{FuzzyMatch}
use pitchfork.Batch.{Surroundings, StartOptions}
use pitchfork.Batch.Start.{
  TaskResult, Ports, Batch, to_start, start_level, start_levels, empty_batch,
}
use pitchfork.Batch.Start.Order.{Settled, Before, with_ports}

module _ (w : Surroundings) (run : RunOptions → TaskResult)
    (render : Daemons → Ports → DaemonId → PitchforkTomlDaemon → Option PitchforkTomlDaemon)
    (pt : Daemons) (disabled requested : Ids) (opts : StartOptions) (running : Ids)
    (ports_of : DaemonId → Option (List ℕ)) where
  abbrev At : Ids → Batch → Type 0
  At seen b =
      b.any_failed ≡ false → Before w run render pt disabled requested opts running ports_of seen b

  abbrev starts : DaemonId → Bool
  starts id = to_start w run render pt disabled requested opts running ports_of id

  abbrev level : Ids → Batch → Batch
  level ids b = start_level w run render pt disabled requested opts running ports_of ids b

  abbrev ported : Ids → Batch → Batch
  ported ids b = with_ports w run render pt disabled requested opts running ports_of ids b

  -- The daemon is taken care of, unless something failed.
  abbrev pub TakenCareOf : DaemonId → Batch → Type 0
  TakenCareOf d b = b.any_failed ≡ false → Settled pt disabled running b.levels d

-- The configured daemons among the given ones that are not disabled.
abbrev pub wanted : Daemons → (disabled : Ids) → Ids → Ids
wanted pt disabled ids = keep (λ id. contains_key id pt) (keep (λ id. not (elem id disabled)) ids)

abbrev CompleteResult :
    Daemons → (disabled running : Ids) → DaemonId → Result DependencyError Batch → Type 0
CompleteResult pt disabled running d (err e) = Unit
CompleteResult pt disabled running d (ok b) =
    b.any_failed ≡ false → Settled pt disabled running b.levels d

module _ (w : Surroundings) (run : RunOptions → TaskResult)
    (render : Daemons → Ports → DaemonId → PitchforkTomlDaemon → Option PitchforkTomlDaemon)
    (fuzzy_match : FuzzyMatch) (hash_order : Ids → Ids) (iterates : IsIteration hash_order)
    (pt : Daemons) (disabled running requested : Ids) (opts : StartOptions)
    (ports_of : DaemonId → Option (List ℕ)) where
  abbrev loop : List Ids → Batch
  loop levels =
      start_levels w run render pt disabled requested opts running ports_of levels empty_batch
