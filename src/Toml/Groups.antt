-- ===== src/Toml/Groups.antt =====
-- What `resolve_ids_and_group` of src/pitchfork_toml.rs returns.
use pitchfork.Prelude.{
  ◌≡◌, ◌⊎◌, true, not, Option, none, some, List, [], ◌∷◌, keep, ok, arith, is_empty, inl, inr,
  Bool-cases, Result-cases, Option-cases, ◌↔◌, All, subst,
}
use pitchfork.Text.{Text, text_eq}
use pitchfork.DaemonId.{DaemonId, id_eq_iff}
use pitchfork.Config.{Daemons}
use pitchfork.Deps.{Ids, elem, contains_key}
use pitchfork.Deps.Count.{count, count-append, elem-eq-count, IsSetOf}
use pitchfork.Deps.Queue.{elem-append}
use pitchfork.Batch.Start.Loop.{keep-none}
use pitchfork.Similar.{FuzzyMatch}
use pitchfork.Batch.{Surroundings, SlugEntry}
use pitchfork.Toml.{Names, lookup, GroupEntry, NamespaceEntry, PitchforkToml, Files}
use pitchfork.Toml.Merge.{all_merged_from}
use pitchfork.Toml.Resolve.{
  push_new, push_all, push_each, push_group, resolve_one, resolve_ids_and_group, namespace_for_dir,
}

push_new-IsSetOf : (id : DaemonId) (ids : Ids) → IsSetOf ids → IsSetOf (push_new id ids)
unfolding push_new count
push_new-IsSetOf id ids h x =
    ground (arith, h x, count-append x ids (id ∷ []), elem-eq-count id ids, id_eq_iff id x)

elem-push_new :
    (x id : DaemonId) (ids : Ids)
    → (elem x (push_new id ids) ≡ true) ↔ ((id ≡ x) ⊎ (elem x ids ≡ true))
unfolding push_new elem
elem-push_new x id ids = ground (arith, elem-append x ids (id ∷ []), id_eq_iff id x)

step :
    {out new old named this same : Type 0}
    → (out ↔ (named ⊎ new))
    → (new ↔ (same ⊎ old))
    → (this ↔ same)
    → out ↔ ((this ⊎ named) ⊎ old)
step m n t = (
  λ o. elim (m.0 o) [
    | inl a ↦ inl (inr a)
    | inr b ↦ elim (n.0 b) [ inl c ↦ inl (inl (t.1 c)) | inr d ↦ inr d ]
  ],
  λ u. m.1 (elim u [
    | inl v ↦ elim v [ inl c ↦ inr (n.1 (inl (t.0 c))) | inr a ↦ inl a ]
    | inr d ↦ inr (n.1 (inr d))
  ]),
)

push_all-IsSetOf : (more ids : Ids) → IsSetOf ids → IsSetOf (push_all more ids)
unfolding push_all
push_all-IsSetOf [] ids h = h
push_all-IsSetOf (id ∷ more) ids h =
    push_all-IsSetOf more (push_new id ids) (push_new-IsSetOf id ids h)

elem-push_all :
    (x : DaemonId) (more ids : Ids)
    → (elem x (push_all more ids) ≡ true) ↔ ((elem x more ≡ true) ⊎ (elem x ids ≡ true))
unfolding push_all elem
elem-push_all x [] ids = ground arith
elem-push_all x (id ∷ more) ids =
    ground (arith, elem-push_all x more (push_new id ids), elem-push_new x id ids, id_eq_iff id x)

module _ {S : Type 0} (w : Surroundings) (f : Files S) (slugs : Names SlugEntry)
    (registry : Names NamespaceEntry) (state_daemons : Option Ids) (fuzzy_match : FuzzyMatch) where
  module _ (daemons : Daemons) (namespace : Text) where
    abbrev pub ResolvedTo : Text → DaemonId → Type 0
    ResolvedTo user_id id =
        resolve_one w f slugs registry state_daemons fuzzy_match daemons namespace user_id ≡ ok id

    -- One of the names stands for the daemon.
    abbrev pub Named : List Text → DaemonId → Type 0
    Named [] id = ⊥
    Named (user_id ∷ user_ids) id = ResolvedTo user_id id ⊎ Named user_ids id

    abbrev pub AllResolved : List Text → Type 0
    AllResolved user_ids = All (λ user_id. (id : DaemonId) × ResolvedTo user_id id) user_ids

    stands_for :
        (user_id : Text) (id : DaemonId)
        → ResolvedTo user_id id
        → (x : DaemonId) → ResolvedTo user_id x ↔ (id ≡ x)
    stands_for user_id id h x = (λ k. cc, λ e. cc)

    pub record Pushed (user_ids : List Text) (ids out : Ids) : Type 0 where
      pub once : IsSetOf ids → IsSetOf out
      pub resolved : AllResolved user_ids
      pub members : (x : DaemonId) → (elem x out ≡ true) ↔ (Named user_ids x ⊎ (elem x ids ≡ true))

    push_each-Pushed :
        (user_ids : List Text) (ids out : Ids)
        → push_each w f slugs registry state_daemons fuzzy_match daemons namespace user_ids ids
          ≡ ok out
        → Pushed user_ids ids out
    unfolding push_each
    push_each-Pushed [] ids out e = record {
      once = λ h x. ground (arith, h x, e);
      resolved = tt;
      members = λ x. ground (arith, e);
    }
    push_each-Pushed (user_id ∷ user_ids) ids out e =
        elim (Result-cases
          (resolve_one w f slugs registry state_daemons fuzzy_match daemons namespace user_id)) [
            | inr (failure, fails) ↦ absurd (ground (arith, e, fails))
            | inl (id, resolves) ↦
                let p : Pushed user_ids (push_new id ids) out =
                  push_each-Pushed user_ids (push_new id ids) out (ground (arith, e, resolves)) in
                record {
                  once = λ h. p.once (push_new-IsSetOf id ids h);
                  resolved = ((id, resolves), p.resolved);
                  members = λ x.
                      step (p.members x) (elem-push_new x id ids)
                        (stands_for user_id id resolves x);
                }
          ]

  -- A daemon of the group with this name, if one is given.
  abbrev pub InGroup : PitchforkToml S → Option Text → DaemonId → Type 0
  InGroup pt none id = ⊥
  InGroup pt (some name) id =
      (group : GroupEntry) × (lookup text_eq name pt.groups ≡ some group)
      × (elem id group.daemons ≡ true)
      × (contains_key id pt.daemons ≡ true)

  pub record IsSelection (pt : PitchforkToml S) (namespace : Text) (user_ids : List Text)
      (group_name : Option Text) (ids : Ids) : Type 0 where
    pub once : IsSetOf ids
    pub resolved : AllResolved pt.daemons namespace user_ids
    pub members :
        (x : DaemonId)
        → (elem x ids ≡ true) ↔ (Named pt.daemons namespace user_ids x ⊎ InGroup pt group_name x)

  empty_set : IsSetOf []
  unfolding count
  empty_set x = omega arith

  named-IsSelection :
      (pt : PitchforkToml S) (namespace : Text) (user_ids : List Text) (named : Ids)
      → Pushed pt.daemons namespace user_ids [] named
      → IsSelection pt namespace user_ids none named
  unfolding elem
  named-IsSelection pt namespace user_ids named p = record {
    once = p.once empty_set;
    resolved = p.resolved;
    members = λ x. (
      λ m. elim ((p.members x).0 m) [ inl a ↦ inl a | inr b ↦ absurd cc ],
      λ u. elim u [ inl a ↦ (p.members x).1 (inl a) | inr b ↦ absurd b ],
    );
  }

  added-IsSelection :
      (pt : PitchforkToml S) (namespace : Text) (user_ids : List Text) (name : Text) (named : Ids)
      (group : GroupEntry)
      → Pushed pt.daemons namespace user_ids [] named
      → lookup text_eq name pt.groups ≡ some group
      → is_empty (keep (λ id. not (contains_key id pt.daemons)) group.daemons) ≡ true
      → IsSelection pt namespace user_ids (some name) (push_all group.daemons named)
  unfolding elem
  added-IsSelection pt namespace user_ids name named group p found defined = record {
    once = push_all-IsSetOf group.daemons named (p.once empty_set);
    resolved = p.resolved;
    members = λ x. (
      λ m. elim ((elem-push_all x group.daemons named).0 m) [
        | inl b ↦ inr (
          group,
          found,
          b,
          ground
              (arith, keep-none x (λ id. not (contains_key id pt.daemons)) group.daemons b defined),
        )
        | inr c ↦ elim ((p.members x).0 c) [ inl a ↦ inl a | inr b ↦ absurd cc ]
      ],
      λ u. (elem-push_all x group.daemons named).1 (elim u [
        | inl a ↦ inr ((p.members x).1 (inl a))
        | inr (other, known, b, configured) ↦ inl (same_group x other found known b)
      ]),
    );
  }
    where
      same_group :
          (x : DaemonId) (other : GroupEntry)
          → lookup text_eq name pt.groups ≡ some group
          → lookup text_eq name pt.groups ≡ some other
          → elem x other.daemons ≡ true
          → elem x group.daemons ≡ true
      same_group x other found known b = cc

  group-IsSelection :
      (pt : PitchforkToml S) (namespace : Text) (user_ids : List Text) (group_name : Option Text)
      (named ids : Ids)
      → push_each w f slugs registry state_daemons fuzzy_match pt.daemons namespace user_ids []
        ≡ ok named
      → push_group w f slugs registry state_daemons fuzzy_match pt group_name named ≡ ok ids
      → IsSelection pt namespace user_ids group_name ids
  unfolding push_group
  group-IsSelection pt namespace user_ids none named ids n e =
      let same : named ≡ ids = cc in
      subst (λ l. IsSelection pt namespace user_ids none l) same
        (named-IsSelection pt namespace user_ids named
          (push_each-Pushed pt.daemons namespace user_ids [] named n))
  group-IsSelection pt namespace user_ids (some name) named ids n e =
      elim (Option-cases (lookup text_eq name pt.groups)) [
        | inl unknown ↦ absurd (ground (arith, e, unknown))
        | inr (group, found) ↦
            elim (Bool-cases
              (is_empty (keep (λ id. not (contains_key id pt.daemons)) group.daemons))) [
                | inr undefined ↦ absurd (ground (arith, e, found, undefined))
                | inl defined ↦
                    subst (λ l. IsSelection pt namespace user_ids (some name) l)
                      (ground (arith, e, found, defined))
                      (added-IsSelection pt namespace user_ids name named group
                        (push_each-Pushed pt.daemons namespace user_ids [] named n) found defined)
              ]
      ]

  -- If `resolve_ids_and_group` succeeds, every name stands for a daemon, and the result holds the
  -- daemons that the names stand for, those of the group, which are all configured, and no others,
  -- each of them once.
  pub resolve_ids_and_group-IsSelection :
      (user_ids : List Text) (group_name : Option Text) (pt : PitchforkToml S) (namespace : Text)
      (ids : Ids)
      → all_merged_from w f w.cwd ≡ ok pt
      → namespace_for_dir w f w.cwd ≡ ok namespace
      → resolve_ids_and_group w f slugs registry state_daemons fuzzy_match user_ids group_name
        ≡ ok ids
      → IsSelection pt namespace user_ids group_name ids
  unfolding resolve_ids_and_group
  resolve_ids_and_group-IsSelection user_ids group_name pt namespace ids merged current e =
      elim (Result-cases
        (push_each w f slugs registry state_daemons fuzzy_match pt.daemons namespace user_ids [])) [
          | inr (failure, fails) ↦ absurd (ground (arith, e, merged, current, fails))
          | inl (named, n) ↦
              group-IsSelection pt namespace user_ids group_name named ids n
                (ground (arith, e, merged, current, n))
        ]
