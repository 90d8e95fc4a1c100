-- ===== src/Toml/Elsewhere.antt =====
-- The daemons of other namespaces, in `all_merged_all_namespaces` of src/pitchfork_toml.rs.
use pitchfork.Prelude.{
  ◌≡◌, false, some, [], ◌∷◌, ok, arith, inl, inr, Bool-cases, Result-cases, if◌then◌else◌, bind-ok,
  if_holds, subst,
}
use pitchfork.DaemonId.{DaemonId, id_eq, id_eq_iff}
use pitchfork.Config.{PitchforkTomlDaemon, Daemons}
use pitchfork.Deps.{get, contains_key}
use pitchfork.Batch.{Surroundings}
use pitchfork.Toml.{Names, put, NamespaceEntry, PitchforkToml, Files}
use pitchfork.Toml.Merge.{all_merged_from, add_daemons, add_namespaces, all_merged_all_namespaces}

get-put :
    (x y : DaemonId) (d : PitchforkTomlDaemon) (m : Daemons)
    → get y (put id_eq x d m) ≡ (if id_eq x y then some d else get y m)
unfolding get put
get-put x y d [] = ground arith
get-put x y d ((z, u) ∷ m) =
    ground (arith, get-put x y d m, id_eq_iff z x, id_eq_iff z y, id_eq_iff x y)

module _ {S : Type 0} (w : Surroundings) (f : Files S) where
  get-add_daemons :
      (more daemons : Daemons) (id : DaemonId) (d : PitchforkTomlDaemon)
      → get id daemons ≡ some d
      → get id (add_daemons w f more daemons) ≡ some d
  unfolding add_daemons
  get-add_daemons [] daemons id d h = h
  get-add_daemons ((x, u) ∷ more) daemons id d h =
      get-add_daemons more (if contains_key x daemons then daemons else put id_eq x u daemons) id d
        (if_holds (λ m. get id m ≡ some d) (contains_key x daemons) _ _ (λ there. h)
          (λ free. elim (Bool-cases (id_eq x id)) [
            | inl same ↦ absurd (clash free ((id_eq_iff x id).0 same))
            | inr other ↦ ground (arith, get-put x id u daemons, other, h)
          ]))
    where
      clash : contains_key x daemons ≡ false → x ≡ id → ⊥
      clash free same = cc

  get-add_namespaces :
      (namespaces : Names NamespaceEntry) (pt : PitchforkToml S) (id : DaemonId)
      (d : PitchforkTomlDaemon)
      → get id pt.daemons ≡ some d
      → get id (add_namespaces w f namespaces pt).daemons ≡ some d
  unfolding add_namespaces
  get-add_namespaces [] pt id d h = h
  get-add_namespaces ((name, entry) ∷ namespaces) pt id d h =
      elim (Result-cases (all_merged_from w f entry.dir)) [
        | inr (e, fails) ↦ rw (add_namespaces, fails) (get-add_namespaces namespaces pt id d h)
        | inl (ns_config, fine) ↦
            rw (add_namespaces, fine)
              (get-add_namespaces namespaces
                (record pt {
                  daemons = add_daemons w f ns_config.daemons pt.daemons;
                  settings = f.merge_from pt.settings ns_config.settings;
                })
                id d (get-add_daemons ns_config.daemons pt.daemons id d h))
      ]

  -- Loading the daemons of the registered namespaces leaves every daemon of the current directory's
  -- configuration as it is.
  pub get-all_merged_all_namespaces :
      (namespaces : Names NamespaceEntry) (local whole : PitchforkToml S) (id : DaemonId)
      (d : PitchforkTomlDaemon)
      → all_merged_from w f w.cwd ≡ ok local
      → all_merged_all_namespaces w f namespaces ≡ ok whole
      → get id local.daemons ≡ some d
      → get id whole.daemons ≡ some d
  unfolding all_merged_all_namespaces
  get-all_merged_all_namespaces namespaces local whole id d merged h known =
      let (pt, got, last) = bind-ok (all_merged_from w f w.cwd) _ whole h in
      let same_local : local ≡ pt = ground (arith, merged, got) in
      let same_whole : add_namespaces w f namespaces pt ≡ whole = cc in
      subst (λ (p : PitchforkToml S). get id p.daemons ≡ some d) same_whole
        (get-add_namespaces namespaces pt id d
          (subst (λ (p : PitchforkToml S). get id p.daemons ≡ some d) same_local known))
