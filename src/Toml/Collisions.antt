-- ===== src/Toml/Collisions.antt =====
-- The namespaces of projects that are merged, in `all_merged_from` of src/pitchfork_toml.rs.
use pitchfork.Prelude.{
  ◌≡◌, ◌⊎◌, true, false, Option, none, some, List, [], ◌∷◌, ok, arith, inl, inr, Bool-cases,
  if◌then◌else◌, refuse, All, bind-ok, subst, sym, ap, ◌∙◌, refuse-ok,
}
use pitchfork.Text.{Text, text_eq, text_eq_iff}
use pitchfork.Config.{FilePath}
use pitchfork.Batch.{Surroundings}
use pitchfork.Toml.{Names, put, lookup, namespace_collision, PitchforkToml, Files}
use pitchfork.Toml.Namespaces.{namespace_from_file}
use pitchfork.Toml.Parse.{read, new}
use pitchfork.Toml.Merge.{
  Origins, collides, other_path, origin_of, is_project_file, claim_namespace, merge, merge_files,
  all_merged_from, list_paths_from,
}

lookup-put :
    {V : Type 0} (x y : Text) (v : V) (m : Names V)
    → lookup text_eq y (put text_eq x v m) ≡ (if text_eq x y then some v else lookup text_eq y m)
unfolding lookup put
lookup-put x y v [] = ground arith
lookup-put x y v ((z, u) ∷ m) =
    ground (arith, lookup-put x y v m, text_eq_iff z x, text_eq_iff z y, text_eq_iff x y)

-- The file is one of these.
abbrev pub Listed : FilePath → List FilePath → Type 0
Listed q [] = ⊥
Listed q (p ∷ paths) = (p ≡ q) ⊎ Listed q paths

module _ {S : Type 0} (w : Surroundings) (f : Files S) where
  -- The origins have the namespace of the file, with its project.
  abbrev Claimed : Origins → FilePath → Type 0
  Claimed origins path =
      (ns : Text)
      → is_project_file w f path ≡ true
      → namespace_from_file w f path ≡ ok ns
      → (other : FilePath) × (lookup text_eq ns origins ≡ some (other, origin_of w f path))

  -- What is left of a namespace that is claimed.
  record Claims (path : FilePath) (ns : Text) (origins origins' : Origins) : Type 0 where
    named : namespace_from_file w f path ≡ ok ns
    free : collides (origin_of w f path) (lookup text_eq ns origins) ≡ false
    claimed : origins' ≡ put text_eq ns (path, origin_of w f path) origins

  claim-cases :
      (path : FilePath) (origins origins' : Origins)
      → claim_namespace w f path origins ≡ ok origins'
      → ((is_project_file w f path ≡ false) × (origins' ≡ origins))
        ⊎ ((ns : Text) × Claims path ns origins origins')
  unfolding claim_namespace
  claim-cases path origins origins' h = elim (Bool-cases (is_project_file w f path)) [
    | inr outside ↦ inl (outside, ground (arith, h, outside))
    | inl inside ↦
        let (ns, named, more) =
          bind-ok (namespace_from_file w f path) _ origins' (rw (claim_namespace, inside) at h) in
        let (done, free, last) =
          bind-ok
            (refuse (collides (origin_of w f path) (lookup text_eq ns origins))
              (namespace_collision (other_path (lookup text_eq ns origins)) path ns))
            _ origins' more in
        let free' = refuse-ok _ _ free in
        inr (ns, record { named = named; free = free'; claimed = cc })
  ]

  same_origin :
      (path other q : FilePath) (m : Option (FilePath × FilePath))
      → collides (origin_of w f path) m ≡ false
      → m ≡ some (other, origin_of w f q)
      → origin_of w f path ≡ origin_of w f q
  same_origin path other q m free e =
      ground (arith, free, e, text_eq_iff (origin_of w f q) (origin_of w f path))

  claim-Claimed :
      (path : FilePath) (origins origins' : Origins)
      → claim_namespace w f path origins ≡ ok origins'
      → Claimed origins' path
  claim-Claimed path origins origins' h ns inside named =
      elim (claim-cases path origins origins' h) [
        | inl (outside, e) ↦ absurd (ground (arith, inside, outside))
        | inr (ns', c) ↦
            let same : ns' ≡ ns = ground (arith, c.named, named) in
            (
              path,
              ap (lookup text_eq ns) c.claimed
                  ∙ ground (
                    arith,
                    lookup-put ns' ns (path, origin_of w f path) origins,
                    text_eq_iff ns' ns,
                    same,
                  ),
            )
      ]

  Claimed-kept :
      (path q : FilePath) (origins origins' : Origins)
      → claim_namespace w f path origins ≡ ok origins'
      → Claimed origins q
      → Claimed origins' q
  Claimed-kept path q origins origins' h k ns inside named =
      elim (claim-cases path origins origins' h) [
        | inl (outside, e) ↦ subst (λ o. Claimed o q) (sym e) k ns inside named
        | inr (ns', c) ↦
            let (other, there) = k ns inside named in
            elim (Bool-cases (text_eq ns' ns)) [
              | inr differs ↦ (
                other,
                ap (lookup text_eq ns) c.claimed
                    ∙ ground (
                      arith,
                      lookup-put ns' ns (path, origin_of w f path) origins,
                      differs,
                      there,
                    ),
              )
              | inl matches ↦
                  let same : ns' ≡ ns = (text_eq_iff ns' ns).0 matches in
                  let free : collides (origin_of w f path) (lookup text_eq ns origins) ≡ false =
                    subst (λ n. collides (origin_of w f path) (lookup text_eq n origins) ≡ false)
                      same c.free in
                  let origin = same_origin path other q (lookup text_eq ns origins) free there in
                  (
                    path,
                    ap (lookup text_eq ns) c.claimed
                        ∙ ground (
                          arith,
                          lookup-put ns' ns (path, origin_of w f path) origins,
                          matches,
                          origin,
                        ),
                  )
            ]
      ]

  merge_files-Claimed :
      (paths : List FilePath) (origins : Origins) (pt out : PitchforkToml S)
      → merge_files w f paths origins pt ≡ ok out
      → (final : Origins) × ((q : FilePath) → Claimed origins q → Claimed final q)
        × All (Claimed final) paths
  unfolding merge_files
  merge_files-Claimed [] origins pt out h = (origins, λ q k. k, tt)
  merge_files-Claimed (path ∷ paths) origins pt out h =
      let (pt2, got, h1) = bind-ok (read w f path) _ out h in
      let (origins', claims, h2) = bind-ok (claim_namespace w f path origins) _ out h1 in
      let (final, keeps, all) = merge_files-Claimed paths origins' (merge w f pt pt2) out h2 in
      (
        final,
        λ q k. keeps q (Claimed-kept path q origins origins' claims k),
        (keeps path (claim-Claimed path origins origins' claims), all),
      )

  All-Listed :
      (P : FilePath → Type 0) (paths : List FilePath) (q : FilePath)
      → All P paths
      → Listed q paths
      → P q
  All-Listed P [] q h m = absurd m
  All-Listed P (p ∷ paths) q h m = elim m [
    | inl e ↦ subst P e h.0
    | inr n ↦ All-Listed P paths q h.1 n
  ]

  -- If the configuration files that count in a directory can be merged, then two project files among
  -- them that have the same namespace belong to the same project directory.
  pub all_merged_from-origin_of :
      (cwd p q : FilePath) (ns : Text) (pt : PitchforkToml S)
      → all_merged_from w f cwd ≡ ok pt
      → Listed p (list_paths_from w f cwd)
      → Listed q (list_paths_from w f cwd)
      → is_project_file w f p ≡ true
      → is_project_file w f q ≡ true
      → namespace_from_file w f p ≡ ok ns
      → namespace_from_file w f q ≡ ok ns
      → origin_of w f p ≡ origin_of w f q
  unfolding all_merged_from
  all_merged_from-origin_of cwd p q ns pt h in_p in_q inside_p inside_q named_p named_q =
      let (final, keeps, all) =
        merge_files-Claimed (list_paths_from w f cwd) [] (new w f none) pt h in
      let (other_p, found_p) =
        All-Listed (Claimed final) (list_paths_from w f cwd) p all in_p ns inside_p named_p in
      let (other_q, found_q) =
        All-Listed (Claimed final) (list_paths_from w f cwd) q all in_q ns inside_q named_q in
      ground (arith, found_p, found_q)
