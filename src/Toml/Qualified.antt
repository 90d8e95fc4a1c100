-- ===== src/Toml/Qualified.antt =====
-- The identifiers in a configuration that `parse_str` of src/pitchfork_toml.rs reads.
use pitchfork.Prelude.{
  ℕ, ◌≡◌, Bool, true, Option, none, some, List, [], ◌∷◌, ok, arith, refl, inl, inr, Bool-cases,
  Result-cases, Option-cases, if◌then◌else◌, ◌>>=◌, All, subst, sym, bind-ok,
}
use pitchfork.Text.{Text, text_eq, text_eq_iff, contains_char}
use pitchfork.DaemonId.{DaemonId, try_new, parse, slash, id_eq, id_eq_iff, global}
use pitchfork.DaemonId.RoundTrip.{IsId, parse_iff}
use pitchfork.DaemonId.Accepted.{try_new_iff}
use pitchfork.Daemon.{or_else}
use pitchfork.Config.{FilePath, PitchforkTomlDaemon, Daemons}
use pitchfork.Batch.{Surroundings, is_global_config}
use pitchfork.Toml.{
  Names, put, PitchforkTomlDaemonRaw, GroupEntryRaw, GroupEntry, PitchforkTomlRaw, PitchforkToml,
  Files,
}
use pitchfork.Toml.Namespaces.{
  namespace_from_path_with_override, base_explicit, agree, is_local_config,
}
use pitchfork.Toml.Parse.{
  qualify, parse_depends, parse_daemon, parse_daemons, daemon_of, group_member, group_members,
  parse_groups, effective_namespace, convert, parse_str,
}

put-All :
    {K V : Type 0} (eq : K → K → Bool) (P : K × V → Type 0) (x : K) (v : V) (m : List (K × V))
    → ((y : K) → eq y x ≡ true → y ≡ x)
    → P (x, v)
    → All P m
    → All P (put eq x v m)
unfolding put
put-All eq P x v [] e p h = (p, tt)
put-All eq P x v ((y, u) ∷ m) e p h = elim (Bool-cases (eq y x)) [
  | inl same ↦ rw same (subst (λ z. P (z, v)) (sym (e y same)) p, h.1)
  | inr other ↦ rw other (h.0, put-All eq P x v m e p h.1)
]

IsId-try_new :
    (namespace name : Text) (id : DaemonId)
    → try_new namespace name ≡ ok id
    → (id.namespace ≡ namespace) × IsId id
IsId-try_new namespace name id h =
    let (e, p, q) = (try_new_iff namespace name id).0 h in
    subst (λ (i : DaemonId). (i.namespace ≡ namespace) × IsId i) (sym e)
      (refl, record { namespace = p; name = q })

IsId-qualify : (namespace dep : Text) (id : DaemonId) → qualify namespace dep ≡ ok id → IsId id
unfolding qualify
IsId-qualify namespace dep id h = elim (Bool-cases (contains_char dep slash)) [
  | inl slashed ↦ ((parse_iff dep id).0 (rw slashed at h)).1
  | inr plain ↦ (IsId-try_new namespace dep id (rw plain at h)).1
]

-- What stands under a namespace: a valid identifier of it, and valid identifiers that it depends on.
abbrev pub IsQualified : Text → DaemonId × PitchforkTomlDaemon → Type 0
IsQualified namespace (id, d) = (id.namespace ≡ namespace) × IsId id × All IsId d.depends

abbrev pub HasIds : Text × GroupEntry → Type 0
HasIds (name, group) = All IsId group.daemons

IsId-parse_depends :
    (path : FilePath) (namespace short_name : Text) (deps : List Text) (ids : List DaemonId)
    → parse_depends path namespace short_name deps ≡ ok ids
    → All IsId ids
unfolding parse_depends
IsId-parse_depends path namespace short_name [] ids h =
    let none_left : [] ≡ ids = cc in subst (All IsId) none_left tt
IsId-parse_depends path namespace short_name (dep ∷ deps) ids h =
    elim (Result-cases (qualify namespace dep)) [
      | inr (e, fails) ↦ absurd (ground (arith, h, fails))
      | inl (id, fine) ↦
          let (rest, left, joined) =
            bind-ok (parse_depends path namespace short_name deps) (λ l. ok (id ∷ l)) ids
              (ground (arith, h, fine)) in
          let same : id ∷ rest ≡ ids = cc in
          subst (All IsId) same (
            IsId-qualify namespace dep id fine,
            IsId-parse_depends path namespace short_name deps rest left,
          )
    ]

IsQualified-parse_daemon :
    (attempts : ℕ) (path : FilePath) (namespace short_name : Text) (raw : PitchforkTomlDaemonRaw)
    (entry : DaemonId × PitchforkTomlDaemon)
    → parse_daemon attempts path namespace short_name raw ≡ ok entry
    → IsQualified namespace entry
unfolding parse_daemon daemon_of
IsQualified-parse_daemon attempts path namespace short_name raw entry h =
    elim (Result-cases (try_new namespace short_name)) [
      | inr (e, fails) ↦ absurd (ground (arith, h, fails))
      | inl (id, fine) ↦
          let (deps, left, joined) =
            bind-ok (parse_depends path namespace short_name raw.depends)
              (λ l. ok (id, daemon_of attempts path l raw)) entry (ground (arith, h, fine)) in
          let same : (id, daemon_of attempts path deps raw) ≡ entry = cc in
          let (right_namespace, valid) = IsId-try_new namespace short_name id fine in
          subst (IsQualified namespace) same (
            right_namespace,
            valid,
            IsId-parse_depends path namespace short_name raw.depends deps left,
          )
    ]

parse_daemons-IsQualified :
    (attempts : ℕ) (path : FilePath) (namespace : Text) (raws : Names PitchforkTomlDaemonRaw)
    (daemons out : Daemons)
    → All (IsQualified namespace) daemons
    → parse_daemons attempts path namespace raws daemons ≡ ok out
    → All (IsQualified namespace) out
unfolding parse_daemons
parse_daemons-IsQualified attempts path namespace [] daemons out q h =
    let same : daemons ≡ out = cc in subst (All (IsQualified namespace)) same q
parse_daemons-IsQualified attempts path namespace ((short_name, raw) ∷ raws) daemons out q h =
    let ((id, d), fine, rest) =
      bind-ok (parse_daemon attempts path namespace short_name raw)
        (λ (id, d). parse_daemons attempts path namespace raws (put id_eq id d daemons)) out h in
    parse_daemons-IsQualified attempts path namespace raws (put id_eq id d daemons) out
      (put-All id_eq (IsQualified namespace) id d daemons (λ y e. (id_eq_iff y id).0 e)
        (IsQualified-parse_daemon attempts path namespace short_name raw (id, d) fine) q)
      rest

IsId-group_member :
    (path : FilePath) (namespace group_name name : Text) (id : DaemonId)
    → group_member path namespace group_name name ≡ ok id
    → IsId id
unfolding group_member
IsId-group_member path namespace group_name name id h =
    elim (Bool-cases (contains_char name slash)) [
      | inl slashed ↦
          ((parse_iff name id).0 (ground (arith, h, slashed, Result-cases (parse name)))).1
      | inr plain ↦
          (IsId-try_new namespace name id
            (ground (arith, h, plain, Result-cases (try_new namespace name)))).1
    ]

IsId-group_members :
    (path : FilePath) (namespace group_name : Text) (names : List Text) (ids : List DaemonId)
    → group_members path namespace group_name names ≡ ok ids
    → All IsId ids
unfolding group_members
IsId-group_members path namespace group_name [] ids h =
    let none_left : [] ≡ ids = cc in subst (All IsId) none_left tt
IsId-group_members path namespace group_name (name ∷ names) ids h =
    let (id, fine, more) =
      bind-ok (group_member path namespace group_name name)
        (λ i. group_members path namespace group_name names >>= λ l. ok (i ∷ l)) ids h in
    let (rest, left, joined) =
      bind-ok (group_members path namespace group_name names) (λ l. ok (id ∷ l)) ids more in
    let same : id ∷ rest ≡ ids = cc in
    subst (All IsId) same (
      IsId-group_member path namespace group_name name id fine,
      IsId-group_members path namespace group_name names rest left,
    )

parse_groups-HasIds :
    (path : FilePath) (namespace : Text) (raws : Names GroupEntryRaw)
    (groups out : Names GroupEntry)
    → All HasIds groups
    → parse_groups path namespace raws groups ≡ ok out
    → All HasIds out
unfolding parse_groups
parse_groups-HasIds path namespace [] groups out q h =
    let same : groups ≡ out = cc in subst (All HasIds) same q
parse_groups-HasIds path namespace ((name, raw) ∷ raws) groups out q h =
    let (ids, fine, rest) =
      bind-ok (group_members path namespace name raw.daemons)
        (λ l. parse_groups path namespace raws (put text_eq name (record { daemons = l }) groups))
        out h in
    parse_groups-HasIds path namespace raws (put text_eq name (record { daemons = ids }) groups) out
      (put-All text_eq HasIds name (record { daemons = ids }) groups
        (λ y e. (text_eq_iff y name).0 e)
        (IsId-group_members path namespace name raw.daemons ids fine) q)
      rest

module _ {S : Type 0} (w : Surroundings) (f : Files S) where
  pub record IsSound (path : FilePath) (pt : PitchforkToml S) : Type 0 where
    pub namespace : Text
    pub global_only : is_global_config w path ≡ true → namespace ≡ global
    pub daemons : All (IsQualified namespace) pt.daemons
    pub groups : All HasIds pt.groups

  namespace_lem :
      (path : FilePath) (explicit : Option Text) (namespace : Text)
      → namespace_from_path_with_override w path explicit ≡ ok namespace
      → is_global_config w path ≡ true
      → namespace ≡ global
  unfolding namespace_from_path_with_override
  namespace_lem path none namespace h g = ground (arith, h, g)
  namespace_lem path (some ns) namespace h g = ground (arith, h, g)

  namespace-effective :
      (path : FilePath) (raw : PitchforkTomlRaw S) (namespace : Text)
      → effective_namespace w f path raw ≡ ok namespace
      → is_global_config w path ≡ true
      → namespace ≡ global
  unfolding effective_namespace
  namespace-effective path raw namespace h =
      let (base, read, more) = bind-ok (base_explicit w f path) _ namespace h in
      let (agreed, same, last) =
        bind-ok (if is_local_config path then agree path raw.namespace base else ok tt) _ namespace
          more in
      namespace_lem path (or_else raw.namespace base) namespace last

  convert-IsSound :
      (path : FilePath) (raw : PitchforkTomlRaw S) (pt : PitchforkToml S)
      → convert w f path raw ≡ ok pt
      → IsSound path pt
  unfolding convert
  convert-IsSound path raw pt h =
      let (namespace, named, h1) = bind-ok (effective_namespace w f path raw) _ pt h in
      let (daemons, parsed, h2) =
        bind-ok (parse_daemons f.default_port_bump_attempts path namespace raw.daemons []) _ pt
          h1 in
      let (groups, grouped, h3) = bind-ok (parse_groups path namespace raw.groups []) _ pt h2 in
      let same_daemons : daemons ≡ pt.daemons = cc in
      let same_groups : groups ≡ pt.groups = cc in
      record {
        namespace = namespace;
        global_only = namespace-effective path raw namespace named;
        daemons = subst (All (IsQualified namespace)) same_daemons (
            parse_daemons-IsQualified f.default_port_bump_attempts path namespace raw.daemons []
              daemons tt parsed);
        groups =
            subst (All HasIds) same_groups
              (parse_groups-HasIds path namespace raw.groups [] groups tt grouped);
      }

  -- Whatever a configuration file says: if `parse_str` accepts it, all of its daemons have valid
  -- identifiers of one namespace, which is "global" for a global file, and what they depend on and
  -- what its groups hold are valid identifiers.
  pub parse_str-IsSound :
      (content : Text) (path : FilePath) (pt : PitchforkToml S)
      → parse_str w f content path ≡ ok pt
      → IsSound path pt
  unfolding parse_str
  parse_str-IsSound content path pt h = elim (Option-cases (f.from_str content)) [
    | inl unreadable ↦ absurd (ground (arith, h, unreadable))
    | inr (raw, readable) ↦ convert-IsSound path raw pt (rw (parse_str, readable) at h)
  ]
