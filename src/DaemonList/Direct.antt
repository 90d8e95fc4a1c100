-- ===== src/DaemonList/Direct.antt =====
-- The daemon that `get_daemon_direct` of src/daemon_list.rs finds is the one of the list.
use pitchfork.Prelude.{
  ◌≡◌, true, false, ◌||◌, Option, none, some, List, [], ◌∷◌, ◌++◌, ok, arith, refl, inl, inr,
  Bool-cases, Option-cases, if◌then◌else◌, sym, ◌∙◌, if_holds, ap, subst,
}
use pitchfork.DaemonId.{DaemonId, id_eq, id_eq_iff, pitchfork_id}
use pitchfork.Config.{PitchforkTomlDaemon, Daemons}
use pitchfork.Daemon.{Daemon, or_else}
use pitchfork.Deps
use pitchfork.Map
use pitchfork.Map.{Map, id_key, is_some, values}
use pitchfork.Map.Laws.{Entries}
use pitchfork.State.{StateFile}
use pitchfork.State.Invariant.{IsNamed}
use pitchfork.Batch.{Surroundings}
use pitchfork.Toml.{Names, NamespaceEntry, PitchforkToml, Files}
use pitchfork.Toml.Merge.{all_merged_from}
use pitchfork.DaemonList.{
  DaemonListEntry, find_entry, seen, Disabled, tracked, available, state_entries, add_available,
  daemons_of, add_registered, build_daemon_list, get_all_daemons_direct, find_registered,
  find_configured, get_daemon_direct,
}

find_entry-append :
    (id : DaemonId) (es fs : List DaemonListEntry)
    → find_entry id (es ++ fs) ≡ or_else (find_entry id es) (find_entry id fs)
unfolding find_entry
find_entry-append id [] fs = refl
find_entry-append id (e ∷ es) fs = elim (Bool-cases (id_eq e.id id)) [
  | inl here ↦ rw here refl
  | inr there ↦ rw there (find_entry-append id es fs)
]

-- The supervisor is not listed.
abbrev listed : DaemonId → Option DaemonListEntry → Option DaemonListEntry
listed id e = if id_eq id pitchfork_id then none else e

module _ (disabled : Disabled) where
  abbrev of_state : DaemonId → Option Daemon → Option DaemonListEntry
  of_state id none = none
  of_state id (some d) = some (tracked disabled id d)

  abbrev of_config : DaemonId → Option PitchforkTomlDaemon → Option DaemonListEntry
  of_config id none = none
  of_config id (some config) = some (available disabled id config)

  find_entry-state_entries :
      (id : DaemonId) (daemons : Map DaemonId Daemon)
      → Entries IsNamed daemons
      → find_entry id (state_entries disabled (values daemons))
        ≡ listed id (of_state id (Map.get id daemons))
  unfolding state_entries values find_entry Map.get
  find_entry-state_entries id [] h = ground arith
  find_entry-state_entries id ((key, d) ∷ daemons) h =
      subst
        (λ k.
          find_entry id (state_entries disabled (d ∷ values daemons))
          ≡ listed id (of_state id (if id_eq k id then some d else Map.get id daemons)))
        h.0
        (elim (Bool-cases (id_eq d.id id)) [
          | inr other ↦ rw other (elim (Bool-cases (id_eq d.id pitchfork_id)) [
            | inl own ↦ rw own (find_entry-state_entries id daemons h.1)
            | inr listed_id ↦ rw (listed_id, other) (find_entry-state_entries id daemons h.1)
          ])
          | inl here ↦
              let same : d.id ≡ id = (id_eq_iff d.id id).0 here in
              elim (Bool-cases (id_eq d.id pitchfork_id)) [
                | inl own ↦
                    let own' : id_eq id pitchfork_id ≡ true =
                      subst (λ x. id_eq x pitchfork_id ≡ true) same own in
                    let rest = find_entry-state_entries id daemons h.1 in
                    rw (own, own') (rw own' at rest)
                | inr listed_id ↦
                    let listed_id' : id_eq id pitchfork_id ≡ false =
                      subst (λ x. id_eq x pitchfork_id ≡ false) same listed_id in
                    rw (listed_id, here, listed_id') (ap (λ k. some (tracked disabled k d)) same)
              ]
        ])

  or_else-none : {A : Type 0} (a : Option A) → or_else a none ≡ a
  or_else-none none = refl
  or_else-none (some a) = refl

  -- One more daemon of the configuration.
  abbrev with : DaemonId → PitchforkTomlDaemon → List DaemonListEntry → List DaemonListEntry
  with key config es =
      if id_eq key pitchfork_id || seen key es then es else es ++ available disabled key config ∷ []

  find_entry-with_other :
      (id key : DaemonId) (config : PitchforkTomlDaemon) (es : List DaemonListEntry)
      → id_eq key id ≡ false
      → find_entry id (with key config es) ≡ find_entry id es
  unfolding find_entry
  find_entry-with_other id key config es other =
      if_holds (λ l. find_entry id l ≡ find_entry id es) (id_eq key pitchfork_id || seen key es) _ _
        (λ known. refl)
        (λ new.
          find_entry-append id es (available disabled key config ∷ [])
          ∙ rw other (or_else-none (find_entry id es)))

  find_entry-with_same :
      (id : DaemonId) (config : PitchforkTomlDaemon) (es : List DaemonListEntry)
      (rest : Option PitchforkTomlDaemon)
      → or_else (find_entry id (with id config es)) (listed id (of_config id rest))
        ≡ or_else (find_entry id es) (listed id (of_config id (some config)))
  unfolding find_entry
  find_entry-with_same id config es rest = elim (Bool-cases (id_eq id pitchfork_id)) [
    | inl own ↦ rw own refl
    | inr other ↦ elim (Option-cases (find_entry id es)) [
      | inr (e, known) ↦ rw (other, known) (rw known refl)
      | inl new ↦
          rw (other, new)
            (rw (find_entry-append id es (available disabled id config ∷ []), new)
              (ground (arith, id_eq_iff id id)))
    ]
  ]

  step :
      (id key : DaemonId) (config : PitchforkTomlDaemon) (daemons : Daemons)
      (es : List DaemonListEntry)
      → or_else
          (find_entry id (with key config es))
          (listed id (of_config id (Deps.get id daemons)))
        ≡ or_else
            (find_entry id es)
            (listed id (of_config id (if id_eq key id then some config else Deps.get id daemons)))
  step id key config daemons es = elim (Bool-cases (id_eq key id)) [
    | inr other ↦ rw (other, find_entry-with_other id key config es other) refl
    | inl here ↦
        let same : id ≡ key = sym ((id_eq_iff key id).0 here) in
        rw here (
          subst
            (λ k.
              or_else (find_entry id (with k config es))
                (listed id (of_config id (Deps.get id daemons)))
              ≡ or_else (find_entry id es) (listed id (of_config id (some config))))
            same (find_entry-with_same id config es (Deps.get id daemons)))
  ]

  find_entry-add_available :
      (id : DaemonId) (daemons : Daemons) (es : List DaemonListEntry)
      → find_entry id (add_available disabled daemons es)
        ≡ or_else (find_entry id es) (listed id (of_config id (Deps.get id daemons)))
  unfolding add_available Deps.get
  find_entry-add_available id [] es = ground arith
  find_entry-add_available id ((key, config) ∷ daemons) es =
      find_entry-add_available id daemons (
        if id_eq key pitchfork_id || seen key es
        then es
        else es ++ available disabled key config ∷ [])
      ∙ step id key config daemons es

or_else_assoc : {A : Type 0} (a b c : Option A) → or_else (or_else a b) c ≡ or_else a (or_else b c)
or_else_assoc none b c = refl
or_else_assoc (some a) b c = refl

or_else-listed :
    (id : DaemonId) (a b : Option DaemonListEntry)
    → or_else (listed id a) (listed id b) ≡ listed id (or_else a b)
or_else-listed id none b = ground arith
or_else-listed id (some a) b = ground arith

or_else-of_config :
    (disabled : Disabled) (id : DaemonId) (config : Option PitchforkTomlDaemon)
    (rest : Option DaemonListEntry)
    → or_else (of_config disabled id config) rest
      ≡ elim config [ some c ↦ some (available disabled id c) | none ↦ rest ]
or_else-of_config disabled id none rest = refl
or_else-of_config disabled id (some c) rest = refl

module _ {S : Type 0} (w : Surroundings) (f : Files S) (registry : Names NamespaceEntry) where
  find_entry-add_registered :
      (disabled : Disabled) (namespaces : Names NamespaceEntry) (id : DaemonId)
      (es : List DaemonListEntry)
      → find_entry id (add_registered w f registry disabled namespaces es)
        ≡ or_else
            (find_entry id es)
            (listed id (find_registered w f registry disabled namespaces id))
  unfolding add_registered find_registered
  find_entry-add_registered disabled [] id es = ground arith
  find_entry-add_registered disabled ((name, entry) ∷ namespaces) id es =
      let daemons = daemons_of w f registry entry in
      let first = of_config disabled id (Deps.get id daemons) in
      let rest = find_registered w f registry disabled namespaces id in
      find_entry-add_registered disabled namespaces id (add_available disabled daemons es)
      ∙ ap (λ e. or_else e (listed id rest)) (find_entry-add_available disabled id daemons es)
      ∙ or_else_assoc (find_entry id es) (listed id first) (listed id rest)
      ∙ ap (or_else (find_entry id es)) (or_else-listed id first rest)
      ∙ ap (λ e. or_else (find_entry id es) (listed id e))
          (or_else-of_config disabled id (Deps.get id daemons) rest)

  find_entry-build_daemon_list :
      (s : StateFile) (id : DaemonId) (config : PitchforkToml S)
      → Entries IsNamed s.daemons
      → find_entry id (build_daemon_list w f registry (values s.daemons) s.disabled config)
        ≡ listed id (
            or_else
              (of_state s.disabled id (Map.get id s.daemons))
              (find_configured w f registry s.disabled config.daemons id))
  unfolding build_daemon_list find_configured
  find_entry-build_daemon_list s id config h =
      let tracked_entry = of_state s.disabled id (Map.get id s.daemons) in
      let own = of_config s.disabled id (Deps.get id config.daemons) in
      let elsewhere = find_registered w f registry s.disabled registry id in
      let known = state_entries s.disabled (values s.daemons) in
      find_entry-add_registered s.disabled registry id
        (add_available s.disabled config.daemons known)
      ∙ ap (λ e. or_else e (listed id elsewhere))
          (find_entry-add_available s.disabled id config.daemons known
            ∙ ap (λ e. or_else e (listed id own))
                (find_entry-state_entries s.disabled id s.daemons h)
            ∙ or_else-listed id tracked_entry own)
      ∙ or_else-listed id (or_else tracked_entry own) elsewhere
      ∙ ap (listed id) (or_else_assoc tracked_entry own elsewhere)
      ∙ ap (λ e. listed id (or_else tracked_entry e))
          (or_else-of_config s.disabled id (Deps.get id config.daemons) elsewhere)

  -- When every daemon of the state is kept under its own identifier and the configuration can be
  -- read, the list of all daemons can be built, and `get_daemon_direct` finds the entry with the
  -- identifier in that list, or nothing when the list has none. In particular the
  -- supervisor itself is in neither, and a daemon of the state is found before a configured one.
  pub get_daemon_direct-find_entry :
      (s : StateFile) (id : DaemonId) (config : PitchforkToml S)
      → Entries IsNamed s.daemons
      → all_merged_from w f w.cwd ≡ ok config
      → (list : List DaemonListEntry) × (get_all_daemons_direct w f registry s ≡ ok list)
        × (get_daemon_direct w f registry s id ≡ ok (find_entry id list))
  unfolding get_daemon_direct get_all_daemons_direct
  get_daemon_direct-find_entry s id config h read = (
    build_daemon_list w f registry (values s.daemons) s.disabled config,
    rw read refl,
    rw (find_entry-build_daemon_list s id config h) (elim (Bool-cases (id_eq id pitchfork_id)) [
      | inl own ↦ rw own refl
      | inr other ↦ rw other (elim (Option-cases (Map.get id s.daemons)) [
        | inl missing ↦ rw (missing, read) refl
        | inr (d, found) ↦ rw found refl
      ])
    ]),
  )
