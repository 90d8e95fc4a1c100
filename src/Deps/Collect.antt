-- ===== src/Deps/Collect.antt =====
-- Step 1 of `resolve_dependencies` in src/deps.rs: the set of daemons to start.
use pitchfork.Prelude.{
  ℕ, zero, suc, ◌+◌, ◌≤◌, ◌≡◌, ◌≢◌, true, false, none, some, [], ◌∷◌, arith, refl, subst,
  if◌then◌else◌, length, Result, ok, err, Bool-cases, Option-cases, ◌⊎◌, inl, inr,
}
use pitchfork.DaemonId.{DaemonId, qualified, id_eq, id_eq_iff}
use pitchfork.Config.{Daemons, PitchforkTomlDaemon}
use pitchfork.Deps.{
  Ids, elem, get, collect, not_found, DependencyError, missing_dependency, total_depends,
}
use pitchfork.Similar.{FuzzyMatch}
use pitchfork.Deps.Count.{count, IsSetOf, elem_self, elem-tail, elem-eq-count}
use pitchfork.Deps.Edges.{IsConfigured}
use pitchfork.Deps.Nodes.{depends_of, depends_of-found}
use pitchfork.Deps.Loop.{IsClosed}
use pitchfork.Deps.Queue.{
  root, dependency, EnqueueCases, Enqueued, InQueue, Needed, enqueue_cases, joined, lacks,
}

module _ (fuzzy_match : FuzzyMatch) (all_daemons : Daemons) where
  -- What `collect` ends with. `found` is a set of configured daemons, closed under dependencies,
  -- with the requested ones, and nothing that those do not need.
  pub record IsStartSet (requested to_start : Ids) : Type 0 where
    pub set : IsSetOf to_start
    pub configured : IsConfigured all_daemons to_start
    pub closed : IsClosed all_daemons to_start
    pub requested_in : (x : DaemonId) → elem x requested ≡ true → elem x to_start ≡ true
    pub needed : (x : DaemonId) → elem x to_start ≡ true → Needed all_daemons requested x

  pub data Collected (requested : Ids) : Result DependencyError Ids → Type 0 where
    found : {to_start : Ids} → IsStartSet requested to_start → Collected requested (ok to_start)
    unknown :
        (id : DaemonId)
        → elem id requested ≡ true
        → get id all_daemons ≡ none
        → Collected requested (err (not_found fuzzy_match all_daemons id))
    missing :
        (id dep : DaemonId)
        → Needed all_daemons requested id
        → elem dep (depends_of all_daemons id) ≡ true
        → get dep all_daemons ≡ none
        → Collected requested (err (missing_dependency (qualified id) (qualified dep)))

  record Inv (requested to_start queue : Ids) : Type 0 where
    set : IsSetOf to_start
    configured : IsConfigured all_daemons to_start
    closed :
        (x d : DaemonId)
        → elem x to_start ≡ true
        → elem d (depends_of all_daemons x) ≡ true
        → InQueue d to_start queue
    requested_in : (x : DaemonId) → elem x requested ≡ true → InQueue x to_start queue
    needed : (x : DaemonId) → elem x to_start ≡ true → Needed all_daemons requested x
    queued : (x : DaemonId) → elem x queue ≡ true → Needed all_daemons requested x
    known :
        (x : DaemonId)
        → elem x queue ≡ true
        → (elem x requested ≡ true) ⊎ (get x all_daemons ≢ none)

  Inv-start : (requested : Ids) → Inv requested [] requested
  unfolding elem count
  Inv-start requested = record {
    set = λ x. omega arith;
    configured = λ x m. cc;
    closed = λ x d m n. cc;
    requested_in = λ x m. inr m;
    needed = λ x m. cc;
    queued = root;
    known = λ x m. inl m;
  }

  -- A daemon that is there already is skipped.
  Inv-skip :
      (requested to_start queue : Ids) (id : DaemonId)
      → elem id to_start ≡ true
      → Inv requested to_start (id ∷ queue)
      → Inv requested to_start queue
  Inv-skip requested to_start queue id there inv = record {
    set = inv.set;
    configured = inv.configured;
    closed = λ x d m n. skip d (inv.closed x d m n);
    requested_in = λ x m. skip x (inv.requested_in x m);
    needed = inv.needed;
    queued = λ x m. inv.queued x (elem-tail x id queue m);
    known = λ x m. inv.known x (elem-tail x id queue m);
  }
    where
      skip : (x : DaemonId) → InQueue x to_start (id ∷ queue) → InQueue x to_start queue
      skip x (inl m) = inl m
      skip x (inr m) = elim (Bool-cases (id_eq id x)) [
        | inl same ↦ inl (ground (arith, id_eq_iff id x))
        | inr other ↦ inr (unfold elem in ground arith)
      ]

  move :
      (to_start queue queue' : Ids) (id : DaemonId)
      → ((x : DaemonId) → elem x queue ≡ true → elem x queue' ≡ true)
      → (x : DaemonId) → InQueue x to_start (id ∷ queue)
      → InQueue x (id ∷ to_start) queue'
  unfolding elem
  move to_start queue queue' id old x (inl m) = inl (ground arith)
  move to_start queue queue' id old x (inr m) = elim (Bool-cases (id_eq id x)) [
    | inl same ↦ inl (ground arith)
    | inr other ↦ inr (old x (ground arith))
  ]

  Inv-add :
      (requested to_start queue queue' : Ids) (id : DaemonId) (daemon : PitchforkTomlDaemon)
      → elem id to_start ≡ false
      → get id all_daemons ≡ some daemon
      → Inv requested to_start (id ∷ queue)
      → Enqueued fuzzy_match all_daemons (id ∷ to_start) daemon.depends queue queue'
      → Inv requested (id ∷ to_start) queue'
  unfolding elem count
  Inv-add requested to_start queue queue' id daemon new e inv q = record {
    set = λ x. ground (arith, inv.set x, elem-eq-count id to_start, id_eq_iff id x);
    configured = λ x m. elim (Bool-cases (id_eq id x)) [
      | inl same ↦ (daemon, ground (arith, id_eq_iff id x))
      | inr other ↦ inv.configured x (ground arith)
    ];
    closed = λ x d m n. elim (Bool-cases (id_eq id x)) [
      | inl same ↦ q.new d (ground (arith, id_eq_iff id x))
      | inr other ↦ move to_start queue queue' id q.old d (inv.closed x d (ground arith) n)
    ];
    requested_in = λ x m. move to_start queue queue' id q.old x (inv.requested_in x m);
    needed = λ x m. elim (Bool-cases (id_eq id x)) [
      | inl same ↦
          subst (Needed all_daemons requested) ((id_eq_iff id x).0 same)
            (inv.queued id (elem_self id queue))
      | inr other ↦ inv.needed x (ground arith)
    ];
    queued = λ x m. elim (q.from x m) [
      | inl old ↦ inv.queued x (elem-tail x id queue old)
      | inr dep ↦
          dependency id x (inv.queued id (elem_self id queue))
            (rw (depends_of-found all_daemons id e) dep)
    ];
    known = λ x m. elim (q.from x m) [
      | inl old ↦ inv.known x (elem-tail x id queue old)
      | inr dep ↦ inr (q.known x dep)
    ];
  }

  -- The dependencies of the daemons that are not to be started yet.
  weight : Ids → Daemons → ℕ
  weight to_start [] = 0
  weight to_start ((k, daemon) ∷ m) =
      let rest = weight to_start m in if elem k to_start then rest else length daemon.depends + rest

  weight-nil : (m : Daemons) → weight [] m ≡ total_depends m
  unfolding weight total_depends elem
  weight-nil [] = refl
  weight-nil ((k, daemon) ∷ m) = ground (arith, weight-nil m)

  weight-le :
      (to_start : Ids) (id : DaemonId) (m : Daemons) → weight (id ∷ to_start) m ≤ weight to_start m
  unfolding weight elem
  weight-le to_start id [] = omega arith
  weight-le to_start id ((k, daemon) ∷ m) = ground (arith, weight-le to_start id m)

  weight-cons :
      (to_start : Ids) (id : DaemonId) (daemon : PitchforkTomlDaemon) (m : Daemons)
      → get id m ≡ some daemon
      → elem id to_start ≡ false
      → weight (id ∷ to_start) m + length daemon.depends ≤ weight to_start m
  unfolding weight elem get
  weight-cons to_start id daemon [] e new = cc
  weight-cons to_start id daemon ((k, d) ∷ m) e new = elim (Bool-cases (id_eq k id)) [
    | inl same ↦ ground (arith, weight-le to_start id m, id_eq_iff k id, id_eq_iff id k)
    | inr other ↦ ground (arith, weight-cons to_start id daemon m, id_eq_iff id k, id_eq_iff k id)
  ]

  done : (requested to_start : Ids) → Inv requested to_start [] → IsStartSet requested to_start
  unfolding elem
  done requested to_start inv = record {
    set = inv.set;
    configured = inv.configured;
    closed = λ x d m n. there d (inv.closed x d m n);
    requested_in = λ x m. there x (inv.requested_in x m);
    needed = inv.needed;
  }
    where
      there : (x : DaemonId) → InQueue x to_start [] → elem x to_start ≡ true
      there x (inl m) = m
      there x (inr m) = cc

  -- The rest of a round, whatever the dependencies of the daemon at hand gave.
  after_enqueue :
      (fuel : ℕ) (requested to_start queue : Ids) (id : DaemonId) (daemon : PitchforkTomlDaemon)
      → elem id to_start ≡ false
      → get id all_daemons ≡ some daemon
      → Inv requested to_start (id ∷ queue)
      → ((queue' : Ids)
          → Enqueued fuzzy_match all_daemons (id ∷ to_start) daemon.depends queue queue'
          → Collected requested (collect fuzzy_match all_daemons fuel (id ∷ to_start) queue'))
      → {r : Result DependencyError Ids}
      → EnqueueCases fuzzy_match all_daemons (id ∷ to_start) id daemon.depends queue r
      → Collected requested (elim r [
        | err e ↦ err e
        | ok queue' ↦ collect fuzzy_match all_daemons fuel (id ∷ to_start) queue'
      ])
  after_enqueue fuel requested to_start queue id daemon new e inv rec (joined {queue' = queue'} q) =
      rec queue' q
  after_enqueue fuel requested to_start queue id daemon new e inv rec (lacks dep m absent) =
      missing id dep (inv.queued id (elem_self id queue)) (rw (depends_of-found all_daemons id e) m)
        absent

  collect_cases :
      (fuel : ℕ) (requested to_start queue : Ids)
      → length queue + weight to_start all_daemons ≤ fuel
      → Inv requested to_start queue
      → Collected requested (collect fuzzy_match all_daemons fuel to_start queue)
  unfolding collect
  collect_cases fuel requested to_start [] room inv = found (done requested to_start inv)
  collect_cases zero requested to_start (id ∷ queue) room inv = absurd (omega arith)
  collect_cases (suc fuel) requested to_start (id ∷ queue) room inv =
      elim (Bool-cases (elem id to_start)) [
        | inl there ↦
            rw (there, collect)
              (collect_cases fuel requested to_start queue (omega arith)
                (Inv-skip requested to_start queue id there inv))
        | inr new ↦ elim (Option-cases (get id all_daemons)) [
          | inl absent ↦
              rw (new, collect)
                (rw absent
                  (unknown id (asked id absent (inv.known id (elem_self id queue))) absent))
          | inr (daemon, e) ↦
              rw (new, collect)
                (rw e (
                  after_enqueue fuel requested to_start queue id daemon new e inv
                    (λ queue' q.
                      collect_cases fuel requested (id ∷ to_start) queue'
                        (omega (arith, q.short, weight-cons to_start id daemon all_daemons e new))
                        (Inv-add requested to_start queue queue' id daemon new e inv q))
                    (enqueue_cases fuzzy_match all_daemons (id ∷ to_start) id daemon.depends
                      queue)))
        ]
      ]
    where
      asked :
          (x : DaemonId)
          → get x all_daemons ≡ none
          → (elem x requested ≡ true) ⊎ (get x all_daemons ≢ none)
          → elem x requested ≡ true
      asked x absent (inl m) = m
      asked x absent (inr there) = absurd (there absent)

  -- The fuel of `resolve_dependencies` is enough: step 1 gives the set of daemons to start, or one
  -- of the two errors, with its reason.
  pub collected :
      (requested : Ids)
      → Collected requested (
          collect fuzzy_match all_daemons
            (length requested + total_depends all_daemons)
            []
            requested)
  collected requested =
      collect_cases (length requested + total_depends all_daemons) requested [] requested
        (omega (arith, weight-nil all_daemons)) (Inv-start requested)
