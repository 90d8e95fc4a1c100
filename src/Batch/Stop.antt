-- ===== src/Batch/Stop.antt =====
-- `stop_daemons` of src/ipc/batch.rs. The tasks of a level run side by side; how each of them ends is
-- a parameter.
pub mod Complete
use pitchfork.Prelude.{
  Bool, true, false, ◌||◌, Option, List, [], ◌∷◌, ◌++◌, if◌then◌else◌, is_empty, keep, any,
}
use pitchfork.DaemonId.{DaemonId}
use pitchfork.Config.{Daemons}
use pitchfork.Daemon.{Daemon}
use pitchfork.Deps.{Ids, elem}
use pitchfork.Deps.StopOrder.{compute_reverse_stop_order}
use pitchfork.Similar.{FuzzyMatch}
use pitchfork.Batch.Start.{running_daemons}

-- How the task that stops a daemon ends.
pub data StopTask : Type 0 where
  done failed panicked : StopTask

-- The answer, with the levels of daemons that were asked to stop, in their order.
pub record StopResult : Type 0 where
  pub stopped : List Ids
  pub any_failed : Bool

abbrev pub nothing_stopped : StopResult
nothing_stopped = record { stopped = []; any_failed = false }

abbrev pub is_error : StopTask → Bool
is_error StopTask.done = false
is_error StopTask.failed = true
is_error StopTask.panicked = true

module _ (stop_task : DaemonId → StopTask) (running : Ids) where
  -- The daemons of a level are stopped, and each task is waited for.
  unfoldable pub stop_level : Ids → StopResult → StopResult
  stop_level to_stop r = record {
    stopped = r.stopped ++ to_stop ∷ [];
    any_failed = r.any_failed || any (λ id. is_error (stop_task id)) to_stop;
  }

  unfoldable pub stop_each_level : List Ids → StopResult → StopResult
  unfolding stop_level
  stop_each_level [] r = r
  stop_each_level (level ∷ levels) r =
      let to_stop = keep (λ id. elem id running) level in
      let without = stop_each_level levels r in
      let further = stop_each_level levels (stop_level to_stop r) in
      if is_empty to_stop then without else further

-- `all_merged` is the configuration, or none if it cannot be read.
unfoldable pub stop_daemons :
    FuzzyMatch
    → (Ids → Ids)
    → (DaemonId → StopTask)
    → (all_merged : Option Daemons) → (active_daemons : List Daemon) → Ids
    → StopResult
unfolding stop_each_level running_daemons
stop_daemons fuzzy_match hash_order stop_task all_merged active_daemons ids =
    let running = running_daemons active_daemons in
    let requested_ids = keep (λ id. elem id running) ids in
    if is_empty requested_ids
    then nothing_stopped
    else stop_each_level stop_task running
        (compute_reverse_stop_order fuzzy_match hash_order requested_ids all_merged) nothing_stopped
