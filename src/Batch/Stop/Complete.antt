-- ===== src/Batch/Stop/Complete.antt =====
-- What `stop_daemons` of src/ipc/batch.rs stops, in which order, and which failures it tells of.
use pitchfork.Prelude.{
  ◌≡◌, Bool, true, ◌||◌, Option, none, some, List, [], ◌∷◌, ◌++◌, arith, refl, sym, ◌∙◌, append-nil,
  append_assoc, is_empty, keep, any, ok, if_holds, inl, inr, Bool-cases, if◌then◌else◌,
}
use pitchfork.DaemonId.{DaemonId}
use pitchfork.Config.{Daemons}
use pitchfork.Daemon.{Daemon}
use pitchfork.Deps.{Ids, elem, contains_key, resolve_dependencies}
use pitchfork.Deps.Count.{count, count-keep, IsSetOf}
use pitchfork.Deps.Loop.{flat}
use pitchfork.Deps.Resolve.{IsIteration}
use pitchfork.Deps.Shutdown.{stop_order-members, stop_order-IsShutdown, count-empty}
use pitchfork.Deps.Stop.{IsShutdown, IsShutdown-stop_levels, count-stop_levels}
use pitchfork.Deps.StopOrder.{
  stop_levels, compute_reverse_stop_order, compute_reverse_stop_order_with_config,
}
use pitchfork.Similar.{FuzzyMatch}
use pitchfork.Batch.Start.{running_daemons}
use pitchfork.Batch.Stop.{
  StopTask, StopResult, nothing_stopped, is_error, stop_level, stop_each_level, stop_daemons,
}

module _ (stop_task : DaemonId → StopTask) (running : Ids) where
  abbrev fails : Ids → Bool
  fails ids = any (λ id. is_error (stop_task id)) ids

  any_append : (p : DaemonId → Bool) (xs ys : Ids) → any p (xs ++ ys) ≡ (any p xs || any p ys)
  any_append p [] ys = refl
  any_append p (x ∷ xs) ys = ground (arith, any_append p xs ys)

  stop_each_level-stopped :
      (levels : List Ids) (r : StopResult)
      → (stop_each_level stop_task running levels r).stopped
        ≡ r.stopped ++ stop_levels running levels
  unfolding stop_each_level stop_level stop_levels
  stop_each_level-stopped [] r = sym (append-nil r.stopped)
  stop_each_level-stopped (level ∷ levels) r =
      let to_stop = keep (λ id. elem id running) level in
      let with_level = stop_level stop_task running to_stop r in
      elim (Bool-cases (is_empty to_stop)) [
        | inl nothing ↦ rw nothing (stop_each_level-stopped levels r)
        | inr something ↦ rw something (
            stop_each_level-stopped levels with_level
            ∙ append_assoc r.stopped (to_stop ∷ []) (stop_levels running levels))
      ]

  stop_each_level-any_failed :
      (levels : List Ids) (r : StopResult)
      → (stop_each_level stop_task running levels r).any_failed
        ≡ (r.any_failed || fails (flat (stop_levels running levels)))
  unfolding stop_each_level stop_level stop_levels
  stop_each_level-any_failed [] r = ground arith
  stop_each_level-any_failed (level ∷ levels) r =
      let to_stop = keep (λ id. elem id running) level in
      elim (Bool-cases (is_empty to_stop)) [
        | inl nothing ↦ rw nothing (stop_each_level-any_failed levels r)
        | inr something ↦ rw something (
            stop_each_level-any_failed levels (stop_level stop_task running to_stop r)
            ∙ ground (
              arith,
              any_append (λ id. is_error (stop_task id)) to_stop
                  (flat (stop_levels running levels)),
            ))
      ]

module _ (stop_task : DaemonId → StopTask) (running ids : Ids) where
  -- Each requested daemon that runs is stopped, once, and no other daemon is; and the answer tells of
  -- a failure if and only if a task failed.
  pub record IsComplete (r : StopResult) : Type 0 where
    pub members :
        (x : DaemonId) → count x (flat r.stopped) ≡ (if elem x running then count x ids else 0)
    pub honest : r.any_failed ≡ any (λ id. is_error (stop_task id)) (flat r.stopped)

module _ (fuzzy_match : FuzzyMatch) (hash_order : Ids → Ids) (iterates : IsIteration hash_order)
    (stop_task : DaemonId → StopTask) (active_daemons : List Daemon) where
  abbrev running : Ids
  running = running_daemons active_daemons

  abbrev requested : Ids → Ids
  requested ids = keep (λ id. elem id running) ids

  abbrev order : Ids → Option Daemons → List Ids
  order ids all_merged =
      compute_reverse_stop_order fuzzy_match hash_order (requested ids) all_merged

  requested-set : (ids : Ids) → IsSetOf ids → IsSetOf (requested ids)
  requested-set ids set x = ground (arith, set x, count-keep (λ id. elem id running) x ids)

  -- The levels that are walked hold what is requested and runs.
  members_of :
      (all_merged : Option Daemons) (ids : Ids) (set : IsSetOf ids) (x : DaemonId)
      → count x (flat (stop_levels running (order ids all_merged)))
        ≡ (if elem x running then count x ids else 0)
  unfolding compute_reverse_stop_order
  members_of all_merged ids set x = ground (
    arith,
    count-stop_levels x running (order ids all_merged),
    stop_order-members fuzzy_match hash_order iterates (requested ids) none all_merged
        (requested-set ids set) x,
    count-keep (λ id. elem id running) x ids,
  )

  complete :
      (all_merged : Option Daemons) (ids : Ids) (set : IsSetOf ids)
      → IsComplete stop_task running ids
          (stop_each_level stop_task running (order ids all_merged) nothing_stopped)
  complete all_merged ids set = record {
    members = λ x.
        rw (stop_each_level-stopped stop_task running (order ids all_merged) nothing_stopped)
          (members_of all_merged ids set x);
    honest =
        rw (stop_each_level-stopped stop_task running (order ids all_merged) nothing_stopped)
          (stop_each_level-any_failed stop_task running (order ids all_merged) nothing_stopped);
  }

  none_running :
      (ids : Ids)
      → is_empty (requested ids) ≡ true
      → IsComplete stop_task running ids nothing_stopped
  unfolding count
  none_running ids h = record {
    members = λ x.
        ground (arith, count-keep (λ id. elem id running) x ids, count-empty x (requested ids) h);
    honest = refl;
  }

  -- If the requested daemons are each named once: whatever the configuration and whether it can be
  -- read, `stop_daemons` stops each requested daemon that runs, once, and no other; and its answer
  -- tells of a failure if and only if the task of one of them failed or panicked.
  pub stop_daemons-IsComplete :
      (all_merged : Option Daemons) (ids : Ids)
      → IsSetOf ids
      → IsComplete stop_task
          (running_daemons active_daemons)
          ids
          (stop_daemons fuzzy_match hash_order stop_task all_merged active_daemons ids)
  unfolding stop_daemons
  stop_daemons-IsComplete all_merged ids set =
      if_holds (IsComplete stop_task running ids) (is_empty (requested ids)) _ _ (none_running ids)
        (λ h. complete all_merged ids set)

  -- If the configuration can be read and the requested daemons of it that run have an order, then
  -- `stop_daemons` stops no daemon before or together with one that depends on it.
  pub stop_daemons-IsShutdown :
      (pt : Daemons) (ids : Ids) (levels : List Ids)
      → resolve_dependencies fuzzy_match hash_order
          (keep
            (λ id. contains_key id pt)
            (keep (λ id. elem id (running_daemons active_daemons)) ids))
          pt
        ≡ ok levels
      → IsShutdown pt []
          (stop_daemons fuzzy_match hash_order stop_task (some pt) active_daemons ids).stopped
  unfolding stop_daemons compute_reverse_stop_order compute_reverse_stop_order_with_config
  stop_daemons-IsShutdown pt ids levels e =
      if_holds (λ (r : StopResult). IsShutdown pt [] r.stopped) (is_empty (requested ids)) _ _
        (λ h. tt)
        (λ h. rw (stop_each_level-stopped stop_task running (order ids (some pt)) nothing_stopped) (
          IsShutdown-stop_levels pt running [] [] (order ids (some pt)) (λ x m. m)
            (stop_order-IsShutdown fuzzy_match hash_order iterates (requested ids) pt none levels
              e)))
