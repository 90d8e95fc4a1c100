-- ===== src/Batch/Start/Order.antt =====
-- In which order `start_daemons` of src/ipc/batch.rs starts daemons, and when it stops doing so.
use pitchfork.Prelude.{
  ℕ, ◌≡◌, refl, Bool, true, false, not, ◌||◌, Option, List, [], ◌∷◌, ◌++◌, arith, if_holds,
  Bool-cases, inl, inr, keep, is_empty, Result, ok, err, All, subst,
}
use pitchfork.DaemonId.{DaemonId}
use pitchfork.Config.{PitchforkTomlDaemon, Daemons}
use pitchfork.Daemon.{Daemon, RunOptions}
use pitchfork.Deps.{Ids, elem, contains_key, resolve_dependencies, DependencyError}
use pitchfork.Deps.Nodes.{depends_of}
use pitchfork.Deps.Edges.{IsConfigured}
use pitchfork.Deps.Loop.{IsLayered, flat}
use pitchfork.Deps.Queue.{elem-append}
use pitchfork.Deps.Stop.{elem-keep}
use pitchfork.Deps.Resolve.{IsIteration}
use pitchfork.Deps.Start.{resolve_dependencies-IsResolution}
use pitchfork.Similar.{FuzzyMatch}
use pitchfork.Batch.{Surroundings, StartOptions}
use pitchfork.Batch.Start.{
  TaskResult, Ports, Level, ids_of, Batch, to_start, start_level, start_levels, start_adhoc,
  empty_batch, spawn_all, add_running_ports, running_daemons, running_ports, start_daemons,
}
use pitchfork.Batch.Start.Loop.{
  keep-elem, keep-none, await_all-any_failed, spawned_only, all_spawned, saved_only,
}

-- What was launched in the levels.
abbrev pub launched_in : List Level → Ids
launched_in [] = []
launched_in (l ∷ ls) = l.launched ++ launched_in ls

abbrev pub AllSucceeded : List Level → Type 0
AllSucceeded ls = All (λ l. l.failed ≡ false) ls

module _ (pt : Daemons) (disabled running : Ids) where
  -- The daemon was launched in these levels, or was running, or is disabled.
  abbrev pub Settled : List Level → DaemonId → Type 0
  Settled ls d = (elem d disabled || elem d running || elem d (launched_in ls)) ≡ true

  -- Levels, the last one first: what a daemon of a level depends on is settled before the level, and
  -- nothing that was launched before it failed.
  abbrev pub IsSequential : List Level → Type 0
  IsSequential [] = Unit
  IsSequential (l ∷ ls) =
      ((x d : DaemonId) → elem x l.launched ≡ true → elem d (depends_of pt x) ≡ true → Settled ls d)
      × AllSucceeded ls
      × IsSequential ls

module _ (w : Surroundings) (run : RunOptions → TaskResult)
    (render : Daemons → Ports → DaemonId → PitchforkTomlDaemon → Option PitchforkTomlDaemon)
    (pt : Daemons) (disabled requested : Ids) (opts : StartOptions) (running : Ids)
    (ports_of : DaemonId → Option (List ℕ)) where
  -- Between two levels.
  pub record Before (seen : Ids) (b : Batch) : Type 0 where
    pub alright : b.any_failed ≡ false
    pub settled : (d : DaemonId) → elem d seen ≡ true → Settled pt disabled running b.levels d
    pub succeeded : AllSucceeded b.levels
    pub sequential : IsSequential pt disabled running b.levels

  -- After the loop.
  abbrev After : Batch → Type 0
  After b =
      IsSequential pt disabled running b.levels × (b.any_failed ≡ false → AllSucceeded b.levels)

  abbrev pub starts : DaemonId → Bool
  starts id = to_start w run render pt disabled requested opts running ports_of id

  passed_over :
      (ls : List Level) (d : DaemonId) → starts d ≡ false → Settled pt disabled running ls d
  passed_over ls d h = ground (arith, h)

  abbrev pub level : Ids → Batch → Batch
  level ids b = start_level w run render pt disabled requested opts running ports_of ids b

  -- What the level launches.
  abbrev head_launched : Ids → Batch → Ids
  head_launched ids b =
      ids_of w run render pt disabled requested opts running ports_of
        (spawn_all w run render pt disabled requested opts running ports_of ids b.resolved_ports).0

  not_broken :
      (ids : Ids) (b : Batch)
      → (level ids b).any_failed ≡ false
      → (spawn_all w run render pt disabled requested opts running ports_of ids b.resolved_ports).1
        ≡ false
  unfolding start_level
  not_broken ids b f =
      let (tasks, broken) =
        spawn_all w run render pt disabled requested opts running ports_of ids b.resolved_ports in
      ground (
        arith,
        await_all-any_failed w run render pt disabled requested opts running ports_of tasks
            (record b { any_failed = b.any_failed || broken; started = [] }) f,
      )

  level-succeeded :
      (ids : Ids) (b : Batch)
      → (level ids b).any_failed ≡ false
      → AllSucceeded b.levels
      → AllSucceeded (level ids b).levels
  unfolding start_level
  level-succeeded ids b f h = (f, h)

  level-IsSequential :
      (seen ids : Ids) (b : Batch)
      → Before seen b
      → ((x d : DaemonId)
          → elem x ids ≡ true
          → elem d (depends_of pt x) ≡ true
          → elem d seen ≡ true)
      → IsSequential pt disabled running (level ids b).levels
  unfolding start_level
  level-IsSequential seen ids b h behind = (
    λ x d m n. h.settled d (
        behind x d
          (spawned_only w run render pt disabled requested opts running ports_of ids
            b.resolved_ports x m)
          n),
    h.succeeded,
    h.sequential,
  )

  Settled-level :
      (ids : Ids) (b : Batch) (d : DaemonId)
      → Settled pt disabled running b.levels d
      → Settled pt disabled running (level ids b).levels d
  unfolding start_level
  Settled-level ids b d h =
      ground (arith, elem-append d (head_launched ids b) (launched_in b.levels), h)

  launched_now :
      (ids : Ids) (b : Batch) (d : DaemonId)
      → elem d (head_launched ids b) ≡ true
      → Settled pt disabled running (level ids b).levels d
  unfolding start_level
  launched_now ids b d h =
      ground (arith, elem-append d (head_launched ids b) (launched_in b.levels), h)

  Settled-launched :
      (ids : Ids) (b : Batch)
      → IsConfigured pt ids
      → (level (keep starts ids) b).any_failed ≡ false
      → (d : DaemonId) → elem d ids ≡ true
      → Settled pt disabled running (level (keep starts ids) b).levels d
  unfolding start_level
  Settled-launched ids b c f d m = elim (Bool-cases (starts d)) [
    | inr over ↦ passed_over (level (keep starts ids) b).levels d over
    | inl starting ↦ launched_now (keep starts ids) b d (
        all_spawned w run render pt disabled requested opts running ports_of (keep starts ids)
          b.resolved_ports d (λ x n. c x (elem-keep x starts ids n).1)
          (not_broken (keep starts ids) b f) (keep-elem d starts ids m starting))
  ]

  pub level-Before :
      (seen ids : Ids) (b : Batch)
      → Before seen b
      → IsConfigured pt ids
      → ((x d : DaemonId)
          → elem x ids ≡ true
          → elem d (depends_of pt x) ≡ true
          → elem d seen ≡ true)
      → (level (keep starts ids) b).any_failed ≡ false
      → Before (seen ++ ids) (level (keep starts ids) b)
  level-Before seen ids b h c behind f = record {
    alright = f;
    settled = λ d m. elim (Bool-cases (elem d seen)) [
      | inl before ↦ Settled-level (keep starts ids) b d (h.settled d before)
      | inr new ↦ Settled-launched ids b c f d (ground (arith, elem-append d seen ids, m, new))
    ];
    succeeded = level-succeeded (keep starts ids) b f h.succeeded;
    sequential =
        level-IsSequential seen (keep starts ids) b h
          (λ x d m n. behind x d (elem-keep x starts ids m).1 n);
  }

  abbrev pub with_ports : Ids → Batch → Batch
  with_ports ids b = record b {
    resolved_ports =
        add_running_ports w run render pt disabled requested opts running ports_of ids
          b.resolved_ports;
  }

  pub skipped :
      (seen ids : Ids) (b : Batch)
      → Before seen b
      → is_empty (keep starts ids) ≡ true
      → Before (seen ++ ids) b
  skipped seen ids b h none_left = record {
    alright = h.alright;
    settled = λ d m. elim (Bool-cases (elem d seen)) [
      | inl before ↦ h.settled d before
      | inr new ↦
          passed_over b.levels d
            (keep-none d starts ids (ground (arith, elem-append d seen ids, m, new)) none_left)
    ];
    succeeded = h.succeeded;
    sequential = h.sequential;
  }

  start_levels-After :
      (seen : Ids) (levels : List Ids) (b : Batch)
      → IsLayered pt seen levels
      → IsConfigured pt (flat levels)
      → Before seen b
      → After (start_levels w run render pt disabled requested opts running ports_of levels b)
  unfolding start_levels
  start_levels-After seen [] b l c h = (h.sequential, λ f. h.succeeded)
  start_levels-After seen (ids ∷ rest) b l c h =
      let b1 : Batch = with_ports ids b in
      let h1 : Before seen b1 = record {
        alright = h.alright;
        settled = h.settled;
        succeeded = h.succeeded;
        sequential = h.sequential;
      } in
      let here : IsConfigured pt ids =
        λ x m. c x (ground (arith, elem-append x ids (flat rest), m)) in
      let later : IsConfigured pt (flat rest) =
        λ x m. c x (ground (arith, elem-append x ids (flat rest), m)) in
      if_holds After (is_empty (keep starts ids)) _ _
        (λ none_left.
          start_levels-After (seen ++ ids) rest b1 l.1 later (skipped seen ids b1 h1 none_left))
        (λ some_left.
          if_holds After (level (keep starts ids) b1).any_failed _ _
            (λ f. (
              level-IsSequential seen (keep starts ids) b1 h1
                  (λ x d m n. l.0 x d (elem-keep x starts ids m).1 n),
              λ g. cc,
            ))
            (λ f.
              start_levels-After (seen ++ ids) rest (level (keep starts ids) b1) l.1 later
                (level-Before seen ids b1 h1 here l.0 f)))

  start_adhoc-IsSequential :
      (default : RunOptions) (adhoc : List Daemon) (ids : Ids) (b : Batch)
      → ((x : DaemonId) → elem x ids ≡ true → contains_key x pt ≡ false)
      → After b
      → IsSequential pt disabled running
          (start_adhoc w run render pt disabled requested opts running ports_of default adhoc ids
            b).levels
  unfolding start_adhoc elem
  start_adhoc-IsSequential default adhoc ids b outside h =
      if_holds (λ (b' : Batch). IsSequential pt disabled running b'.levels)
        (b.any_failed || is_empty ids) _ _ (λ nothing. h.0)
        (λ something. (
          λ x d m n. ground (
            arith,
            outside x (
                saved_only w run render pt disabled requested opts running ports_of default adhoc
                  ids x m),
            n,
          ),
          h.1 (ground (arith, something)),
          h.0,
        ))

-- The levels of a result, if there is one, come one after the other.
abbrev SequentialResult : Daemons → Ids → Ids → Result DependencyError Batch → Type 0
SequentialResult pt disabled running (err e) = Unit
SequentialResult pt disabled running (ok b) = IsSequential pt disabled running b.levels

module _ (w : Surroundings) (run : RunOptions → TaskResult)
    (render : Daemons → Ports → DaemonId → PitchforkTomlDaemon → Option PitchforkTomlDaemon)
    (fuzzy_match : FuzzyMatch) (hash_order : Ids → Ids) (iterates : IsIteration hash_order)
    (pt : Daemons) (disabled running requested : Ids) (opts : StartOptions)
    (ports_of : DaemonId → Option (List ℕ)) where
  abbrev loop : List Ids → Batch
  loop levels =
      start_levels w run render pt disabled requested opts running ports_of levels empty_batch

  abbrev finish : RunOptions → List Daemon → Ids → Batch → Batch
  finish default all_daemons adhoc_ids =
      start_adhoc w run render pt disabled requested opts running ports_of default
        (keep (λ d. not (contains_key d.id pt)) all_daemons) adhoc_ids

  before : Before w run render pt disabled requested opts running ports_of [] empty_batch
  unfolding elem
  before = record { alright = refl; settled = λ d m. cc; succeeded = tt; sequential = tt }

  resolved-IsSequential :
      (config_ids : Ids) (complete : Batch → Batch) (r : Result DependencyError (List Ids))
      → resolve_dependencies fuzzy_match hash_order config_ids pt ≡ r
      → ((b : Batch)
          → After w run render pt disabled requested opts running ports_of b
          → IsSequential pt disabled running (complete b).levels)
      → SequentialResult pt disabled running
          (elim r [ err e ↦ err e | ok levels ↦ ok (complete (loop levels)) ])
  resolved-IsSequential config_ids complete (err e) h after = tt
  resolved-IsSequential config_ids complete (ok levels) h after =
      let r =
        resolve_dependencies-IsResolution fuzzy_match hash_order iterates pt config_ids levels h in
      after (loop levels) (
        start_levels-After w run render pt disabled requested opts running ports_of [] levels
          empty_batch r.layered r.configured before)

-- The levels in which `start_daemons` starts daemons come one after the other: a configured daemon is
-- started only once each daemon that it depends on was started in an earlier level, was running
-- before, or is disabled; and nothing is started after a level in which something failed.
pub start_daemons-IsSequential :
    (w : Surroundings) (run : RunOptions → TaskResult)
    (render : Daemons → Ports → DaemonId → PitchforkTomlDaemon → Option PitchforkTomlDaemon)
    (fuzzy_match : FuzzyMatch) (hash_order : Ids → Ids) (default : RunOptions) (pt : Daemons)
    (disabled : Ids) (all_daemons active_daemons : List Daemon) (ids : Ids) (opts : StartOptions)
    (b : Batch)
    → IsIteration hash_order
    → start_daemons w run render fuzzy_match hash_order default pt disabled all_daemons
        active_daemons ids opts
      ≡ ok b
    → IsSequential pt disabled (running_daemons active_daemons) b.levels
unfolding start_daemons
start_daemons-IsSequential w run render fuzzy_match hash_order default pt disabled all_daemons
      active_daemons ids opts b iterates e =
    let running = running_daemons active_daemons in
    let ports_of = running_ports active_daemons in
    let requested_ids = keep (λ id. not (elem id disabled)) ids in
    let config_ids = keep (λ id. contains_key id pt) requested_ids in
    let adhoc_ids = keep (λ id. not (contains_key id pt)) requested_ids in
    let after =
      start_adhoc-IsSequential w run render pt disabled ids opts running ports_of default
        (keep (λ d. not (contains_key d.id pt)) all_daemons) adhoc_ids in
    let outside : (x : DaemonId) → elem x adhoc_ids ≡ true → contains_key x pt ≡ false =
      λ x m. ground (arith, elem-keep x (λ id. not (contains_key id pt)) requested_ids m) in
    subst (SequentialResult pt disabled running) e (
      if_holds (SequentialResult pt disabled running) (is_empty requested_ids) _ _ (λ h. tt)
        (λ h.
          if_holds (SequentialResult pt disabled running) (is_empty config_ids) _ _
            (λ h. after empty_batch outside (tt, λ f. tt))
            (λ h.
              resolved-IsSequential w run render fuzzy_match hash_order iterates pt disabled running
                ids opts ports_of config_ids
                (finish w run render fuzzy_match hash_order iterates pt disabled running ids opts
                  ports_of default all_daemons adhoc_ids)
                _ refl (λ b. after b outside))))
