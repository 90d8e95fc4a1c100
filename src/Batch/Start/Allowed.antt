-- ===== src/Batch/Start/Allowed.antt =====
-- What `start_daemons` of src/ipc/batch.rs leaves alone.
use pitchfork.Prelude.{
  ℕ, ◌≡◌, Bool, true, false, not, ◌&&◌, ◌||◌, Option, List, [], ◌∷◌, arith, if_holds, Bool-cases,
  Option-cases, inl, inr, keep, is_empty, Result, ok, err, subst,
}
use pitchfork.DaemonId.{DaemonId, id_eq, id_eq_iff}
use pitchfork.Config.{PitchforkTomlDaemon, Daemons}
use pitchfork.Daemon.{Daemon, RunOptions}
use pitchfork.Deps.{Ids, elem, contains_key, resolve_dependencies, DependencyError}
use pitchfork.Deps.Queue.{elem-append}
use pitchfork.Deps.Stop.{elem-keep}
use pitchfork.Similar.{FuzzyMatch}
use pitchfork.Batch.{Surroundings, StartOptions}
use pitchfork.Batch.Start.{
  TaskResult, Ports, Level, Batch, to_start, start_level, start_levels, start_adhoc, spawn_adhoc,
  empty_batch, spawn_all, running_daemons, running_ports, start_daemons, may_replace, ids_of,
  find_daemon, add_running_ports,
}
use pitchfork.Batch.Start.Loop.{spawned_only, saved_only}
use pitchfork.Batch.Start.Order.{launched_in}

-- The daemon may be started: it is not disabled, and if it runs, it was asked for by name and with
-- force.
abbrev pub allowed : (disabled running requested : Ids) → StartOptions → DaemonId → Bool
allowed disabled running requested opts d =
    not (elem d disabled) && (not (elem d running) || (opts.force && elem d requested))

abbrev pub AllAllowed : (disabled running requested : Ids) → StartOptions → List Level → Type 0
AllAllowed disabled running requested opts ls =
    (d : DaemonId)
    → elem d (launched_in ls) ≡ true
    → allowed disabled running requested opts d ≡ true

abbrev AllowedResult :
    (disabled running requested : Ids) → StartOptions → Result DependencyError Batch → Type 0
AllowedResult disabled running requested opts (err e) = Unit
AllowedResult disabled running requested opts (ok b) =
    AllAllowed disabled running requested opts b.levels

module _ (w : Surroundings) (run : RunOptions → TaskResult)
    (render : Daemons → Ports → DaemonId → PitchforkTomlDaemon → Option PitchforkTomlDaemon)
    (pt : Daemons) (disabled requested : Ids) (opts : StartOptions) (running : Ids)
    (ports_of : DaemonId → Option (List ℕ)) where
  abbrev starts : DaemonId → Bool
  starts id = to_start w run render pt disabled requested opts running ports_of id

  abbrev level : Ids → Batch → Batch
  level ids b = start_level w run render pt disabled requested opts running ports_of ids b

  abbrev Fine : List Level → Type 0
  Fine ls = AllAllowed disabled running requested opts ls

  -- What the level launches.
  abbrev head_launched : Ids → Batch → Ids
  head_launched ids b =
      ids_of w run render pt disabled requested opts running ports_of
        (spawn_all w run render pt disabled requested opts running ports_of ids b.resolved_ports).0

  level-Fine : (ids : Ids) (b : Batch) → Fine b.levels → Fine (level (keep starts ids) b).levels
  unfolding start_level
  level-Fine ids b h d m = elim (Bool-cases (elem d (launched_in b.levels))) [
    | inl before ↦ h d before
    | inr new ↦
        let spawned : elem d (head_launched (keep starts ids) b) ≡ true = ground (
          arith,
          elem-append d (head_launched (keep starts ids) b) (launched_in b.levels),
          m,
          new,
        ) in
        ground (
          arith,
          elem-keep d starts ids (
              spawned_only w run render pt disabled requested opts running ports_of
                (keep starts ids) b.resolved_ports d spawned),
        )
  ]

  start_levels-Fine :
      (levels : List Ids) (b : Batch)
      → Fine b.levels
      → Fine (start_levels w run render pt disabled requested opts running ports_of levels b).levels
  unfolding start_levels
  start_levels-Fine [] b h = h
  start_levels-Fine (ids ∷ rest) b h =
      let b1 : Batch = record b {
        resolved_ports =
            add_running_ports w run render pt disabled requested opts running ports_of ids
              b.resolved_ports;
      } in
      let fine : Fine (level (keep starts ids) b1).levels = level-Fine ids b1 h in
      if_holds (λ (b' : Batch). Fine b'.levels) (is_empty (keep starts ids)) _ _
        (λ e. start_levels-Fine rest b1 h)
        (λ e.
          if_holds (λ (b' : Batch). Fine b'.levels) (level (keep starts ids) b1).any_failed _ _
            (λ f. fine) (λ f. start_levels-Fine rest (level (keep starts ids) b1) fine))

  abbrev saved : RunOptions → List Daemon → Ids → Ids
  saved default adhoc ids =
      ids_of w run render pt disabled requested opts running ports_of
        (spawn_adhoc w run render pt disabled requested opts running ports_of default adhoc ids)

  abbrev replaces : DaemonId → Bool
  replaces id = may_replace w run render pt disabled requested opts running ports_of id

  saved-replaces :
      (default : RunOptions) (adhoc : List Daemon) (ids : Ids) (x : DaemonId)
      → elem x (saved default adhoc ids) ≡ true
      → replaces x ≡ true
  unfolding spawn_adhoc elem
  saved-replaces default adhoc [] x h = cc
  saved-replaces default adhoc (id ∷ ids) x h = elim (Bool-cases (replaces id)) [
    | inr keeps ↦ saved-replaces default adhoc ids x (ground (arith, h, keeps))
    | inl fits ↦ elim (Option-cases (find_daemon id adhoc)) [
      | inl unknown ↦ saved-replaces default adhoc ids x (ground (arith, h, fits, unknown))
      | inr (d, known) ↦ elim (Option-cases d.cmd) [
        | inl no_cmd ↦ saved-replaces default adhoc ids x (ground (arith, h, fits, known, no_cmd))
        | inr (cmd, has) ↦ elim (Bool-cases (id_eq id x)) [
          | inl same ↦ subst (λ y. replaces y ≡ true) ((id_eq_iff id x).0 same) fits
          | inr other ↦
              saved-replaces default adhoc ids x (ground (arith, h, fits, known, has, other))
        ]
      ]
    ]
  ]

  start_adhoc-Fine :
      (default : RunOptions) (adhoc : List Daemon) (ids : Ids) (b : Batch)
      → ((x : DaemonId) → elem x ids ≡ true → elem x disabled ≡ false)
      → Fine b.levels
      → Fine
          (start_adhoc w run render pt disabled requested opts running ports_of default adhoc ids
            b).levels
  unfolding start_adhoc
  start_adhoc-Fine default adhoc ids b enabled h =
      if_holds (λ (b' : Batch). Fine b'.levels) (b.any_failed || is_empty ids) _ _ (λ e. h)
        (λ e d m. elim (Bool-cases (elem d (launched_in b.levels))) [
          | inl before ↦ h d before
          | inr new ↦
              let spawned : elem d (saved default adhoc ids) ≡ true =
                ground
                  (arith, elem-append d (saved default adhoc ids) (launched_in b.levels), m, new) in
              ground (
                arith,
                saved-replaces default adhoc ids d spawned,
                enabled d (
                    saved_only w run render pt disabled requested opts running ports_of default
                      adhoc ids d spawned),
              )
        ])

  resolved-Fine :
      (fuzzy_match : FuzzyMatch) (hash_order : Ids → Ids) (config_ids : Ids)
      (finish : Batch → Batch)
      → ((b : Batch) → Fine b.levels → Fine (finish b).levels)
      → AllowedResult disabled running requested opts
          (elim (resolve_dependencies fuzzy_match hash_order config_ids pt) [
            | err e ↦ err e
            | ok levels ↦ ok (
                finish (
                  start_levels w run render pt disabled requested opts running ports_of levels
                    empty_batch))
          ])
  unfolding elem
  resolved-Fine fuzzy_match hash_order config_ids finish fine =
      of_result (resolve_dependencies fuzzy_match hash_order config_ids pt)
    where
      of_result :
          (r : Result DependencyError (List Ids))
          → AllowedResult disabled running requested opts (elim r [
            | err e ↦ err e
            | ok levels ↦ ok (
                finish (
                  start_levels w run render pt disabled requested opts running ports_of levels
                    empty_batch))
          ])
      of_result (err e) = tt
      of_result (ok levels) = fine _ (start_levels-Fine levels empty_batch (λ d m. cc))

-- Whatever `start_daemons` launches is not disabled, and a daemon that runs already is launched anew
-- only if it was asked for by name and with force.
pub start_daemons-AllAllowed :
    (w : Surroundings) (run : RunOptions → TaskResult)
    (render : Daemons → Ports → DaemonId → PitchforkTomlDaemon → Option PitchforkTomlDaemon)
    (fuzzy_match : FuzzyMatch) (hash_order : Ids → Ids) (default : RunOptions) (pt : Daemons)
    (disabled : Ids) (all_daemons active_daemons : List Daemon) (ids : Ids) (opts : StartOptions)
    (b : Batch)
    → start_daemons w run render fuzzy_match hash_order default pt disabled all_daemons
        active_daemons ids opts
      ≡ ok b
    → AllAllowed disabled (running_daemons active_daemons) ids opts b.levels
unfolding start_daemons elem
start_daemons-AllAllowed w run render fuzzy_match hash_order default pt disabled all_daemons
      active_daemons ids opts b e =
    let running = running_daemons active_daemons in
    let ports_of = running_ports active_daemons in
    let requested_ids = keep (λ id. not (elem id disabled)) ids in
    let adhoc_ids = keep (λ id. not (contains_key id pt)) requested_ids in
    let enabled : (x : DaemonId) → elem x adhoc_ids ≡ true → elem x disabled ≡ false = λ x m.
      ground (
        arith,
        elem-keep x (λ id. not (elem id disabled)) ids
            (elem-keep x (λ id. not (contains_key id pt)) requested_ids m).1,
      ) in
    let after = λ (b' : Batch).
      start_adhoc-Fine w run render pt disabled ids opts running ports_of default
        (keep (λ d. not (contains_key d.id pt)) all_daemons) adhoc_ids b' enabled in
    subst (AllowedResult disabled running ids opts) e (
      if_holds (AllowedResult disabled running ids opts) (is_empty requested_ids) _ _ (λ h d m. cc)
        (λ h.
          if_holds (AllowedResult disabled running ids opts)
            (is_empty (keep (λ id. contains_key id pt) requested_ids)) _ _
            (λ h. after empty_batch (λ d m. cc))
            (λ h.
              resolved-Fine w run render pt disabled ids opts running ports_of fuzzy_match
                hash_order (keep (λ id. contains_key id pt) requested_ids)
                (λ b'.
                  start_adhoc w run render pt disabled ids opts running ports_of default
                    (keep (λ d. not (contains_key d.id pt)) all_daemons) adhoc_ids b')
                after)))
