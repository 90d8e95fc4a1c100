-- ===== src/Deps/Queue.antt =====
-- The queue of step 1 of `resolve_dependencies` in src/deps.rs.
use pitchfork.Prelude.{
  ◌+◌, ◌≤◌, ◌≡◌, ◌≢◌, true, false, ◌||◌, Option, none, some, [], ◌∷◌, ◌++◌, arith, refl,
  if◌then◌else◌, length, length-append, Result, ok, err, Bool-cases, ◌⊎◌, inl, inr,
}
use pitchfork.DaemonId.{DaemonId, qualified, id_eq, id_eq_iff}
use pitchfork.Config.{Daemons, PitchforkTomlDaemon}
use pitchfork.Deps.{Ids, elem, get, enqueue, DependencyError, missing_dependency}
use pitchfork.Similar.{FuzzyMatch}
use pitchfork.Deps.Count.{elem_self, elem-tail}
use pitchfork.Deps.Nodes.{depends_of}

-- What the requested daemons need: themselves, and the dependencies of what they need.
pub data Needed (all_daemons : Daemons) (requested : Ids) : DaemonId → Type 0 where
  root : (x : DaemonId) → elem x requested ≡ true → Needed all_daemons requested x
  dependency :
      (x d : DaemonId)
      → Needed all_daemons requested x
      → elem d (depends_of all_daemons x) ≡ true
      → Needed all_daemons requested d

abbrev pub InQueue : DaemonId → Ids → Ids → Type 0
InQueue x to_start queue = (elem x to_start ≡ true) ⊎ (elem x queue ≡ true)

pub elem-append : (x : DaemonId) (xs ys : Ids) → elem x (xs ++ ys) ≡ (elem x xs || elem x ys)
unfolding elem
elem-append x [] ys = refl
elem-append x (y ∷ xs) ys = ground (arith, elem-append x xs ys)

module _ (fuzzy_match : FuzzyMatch) (all_daemons : Daemons) where
  -- The dependencies of one daemon join the queue, those that are not known yet.
  pub record Enqueued (to_start deps queue queue' : Ids) : Type 0 where
    pub short : length queue' ≤ length queue + length deps
    pub old : (x : DaemonId) → elem x queue ≡ true → elem x queue' ≡ true
    pub new : (x : DaemonId) → elem x deps ≡ true → InQueue x to_start queue'
    pub from : (x : DaemonId) → elem x queue' ≡ true → (elem x queue ≡ true) ⊎ (elem x deps ≡ true)
    pub known : (x : DaemonId) → elem x deps ≡ true → get x all_daemons ≢ none

  pub data EnqueueCases (to_start : Ids) (id : DaemonId) (deps queue : Ids)
      : Result DependencyError Ids → Type 0 where
    joined :
        {queue' : Ids}
        → Enqueued to_start deps queue queue'
        → EnqueueCases to_start id deps queue (ok queue')
    lacks :
        (dep : DaemonId)
        → elem dep deps ≡ true
        → get dep all_daemons ≡ none
        → EnqueueCases to_start id deps queue
            (err (missing_dependency (qualified id) (qualified dep)))

  abbrev queue_with : Ids → DaemonId → Ids → Ids
  queue_with to_start dep queue = if elem dep to_start then queue else queue ++ dep ∷ []

  joined_step :
      (to_start : Ids) (dep : DaemonId) (deps queue queue' : Ids)
      → get dep all_daemons ≢ none
      → Enqueued to_start deps (queue_with to_start dep queue) queue'
      → Enqueued to_start (dep ∷ deps) queue queue'
  unfolding elem
  joined_step to_start dep deps queue queue' there e = record {
    short = ground (arith, e.short, length-append queue (dep ∷ []));
    old = λ x m. ground (arith, e.old x, elem-append x queue (dep ∷ []));
    new = λ x m. elim (Bool-cases (id_eq dep x)) [
      | inl same ↦ elim (Bool-cases (elem dep to_start)) [
        | inl started ↦ inl (ground (arith, id_eq_iff dep x))
        | inr waits ↦ inr (ground (arith, e.old x, elem-append x queue (dep ∷ [])))
      ]
      | inr other ↦ e.new x (ground arith)
    ];
    from = λ x m. elim (e.from x m) [
      | inl queued ↦ ground (arith, elem-append x queue (dep ∷ []))
      | inr later ↦ inr (ground arith)
    ];
    known = λ x m absent. elim (Bool-cases (id_eq dep x)) [
      | inl same ↦ there (ground (arith, id_eq_iff dep x))
      | inr other ↦ e.known x (ground arith) absent
    ];
  }

  cases_step :
      (to_start : Ids) (id dep : DaemonId) (deps queue : Ids) {r : Result DependencyError Ids}
      → get dep all_daemons ≢ none
      → EnqueueCases to_start id deps (queue_with to_start dep queue) r
      → EnqueueCases to_start id (dep ∷ deps) queue r
  cases_step to_start id dep deps queue there (joined e) =
      joined (joined_step to_start dep deps queue _ there e)
  cases_step to_start id dep deps queue there (lacks d m absent) =
      lacks d (elem-tail d dep deps m) absent

  pub enqueue_cases :
      (to_start : Ids) (id : DaemonId) (deps queue : Ids)
      → EnqueueCases to_start id deps queue (enqueue fuzzy_match all_daemons to_start id deps queue)
  unfolding enqueue elem
  enqueue_cases to_start id [] queue = joined (record {
    short = omega arith;
    old = λ x m. m;
    new = λ x m. cc;
    from = λ x m. inl m;
    known = λ x m. cc;
  })
  enqueue_cases to_start id (dep ∷ deps) queue =
      go (get dep all_daemons) refl (enqueue_cases to_start id deps (queue_with to_start dep queue))
    where
      go :
          (o : Option PitchforkTomlDaemon) {r : Result DependencyError Ids}
          → get dep all_daemons ≡ o
          → EnqueueCases to_start id deps (queue_with to_start dep queue) r
          → EnqueueCases to_start id (dep ∷ deps) queue (
              if (elim o [ some _ ↦ true | none ↦ false ])
              then r
              else err (missing_dependency (qualified id) (qualified dep)))
      go none absent rest = lacks dep (elem_self dep deps) absent
      go (some daemon) there rest = cases_step to_start id dep deps queue (λ absent. cc) rest
