-- ===== src/Deps/Edges.antt =====
-- The graph that `resolve_dependencies` of src/deps.rs builds: what its two maps hold.
use pitchfork.Prelude.{
  ℕ, ◌+◌, ◌*◌, ◌≡◌, true, ◌&&◌, some, [], ◌∷◌, ◌++◌, arith, refl, subst, if◌then◌else◌, Bool-cases,
  inl, inr,
}
use pitchfork.DaemonId.{DaemonId, id_eq, id_eq_iff}
use pitchfork.Config.{Daemons, PitchforkTomlDaemon}
use pitchfork.Deps.{
  Ids, elem, get, Graph, update, empty_graph, add_nodes, add_edge, add_edges, add_all,
}
use pitchfork.Deps.Count.{
  count, count-append, id_eq_refl, elem→count, elem_self, elem-tail, IsSetOf,
}
use pitchfork.Deps.Nodes.{
  Describes, Describes-ext, Finds, depends_of, depends_of-found, one_if, pending, start-Describes,
}

module _ (to_start : Ids) where
  add_edge_lem :
      {f : DaemonId → ℕ} {h : DaemonId → DaemonId → ℕ} (id dep : DaemonId) (g : Graph)
      → elem id to_start ≡ true
      → elem dep to_start ≡ true
      → Describes to_start f h g
      → Finds (add_edge id dep g) (
          Describes to_start
            (λ x. f x + one_if (id_eq id x))
            (λ d x. h d x + one_if (id_eq dep d && id_eq id x)))
  unfolding add_edge count
  add_edge_lem {f} {h} id dep g m n k =
      let (ids, e, c) = k.adjacent dep n in
      (
        record {
          in_degree = update g.in_degree id (f id + 1);
          dependents = update g.dependents dep (ids ++ id ∷ []);
        },
        ground (arith, k.degrees id m, e),
        record {
          degrees = λ x mx. elim (Bool-cases (id_eq id x)) [
            | inl same ↦ ground (arith, id_eq_iff id x)
            | inr other ↦ ground (arith, k.degrees x mx)
          ];
          adjacent = λ d md. elim (Bool-cases (id_eq dep d)) [
            | inl same ↦ (
              ids ++ id ∷ [],
              ground arith,
              λ x. ground (arith, count-append x ids (id ∷ []), c x, id_eq_iff dep d),
            )
            | inr other ↦
                let (ids', e', c') = k.adjacent d md in
                (ids', ground (arith, e'), λ x. ground (arith, c' x))
          ];
        },
      )

  -- The dependencies of one node, each that is to be started as often as it is listed.
  add_edges_lem :
      (deps : Ids) {f : DaemonId → ℕ} {h : DaemonId → DaemonId → ℕ} (id : DaemonId) (g : Graph)
      → elem id to_start ≡ true
      → Describes to_start f h g
      → Finds (add_edges to_start id deps g) (
          Describes to_start
            (λ x. f x + (if id_eq id x then pending to_start [] deps else 0))
            (λ d x. h d x + (if id_eq id x then count d deps else 0)))
  unfolding add_edges pending count elem
  add_edges_lem [] id g m k =
      (g, refl, Describes-ext (λ x _. ground arith) (λ d x _. ground arith) k)
  add_edges_lem (dep ∷ deps) {f} {h} id g m k = elim (Bool-cases (elem dep to_start)) [
    | inr out ↦
        let (g', e, k') = add_edges_lem deps id g m k in
        (
          g',
          rw out e,
          Describes-ext (λ x _. ground arith) (λ d x md. ground (arith, id_eq_iff dep d)) k',
        )
    | inl inside ↦
        let (g₁, e₁, k₁) = add_edge_lem id dep g m inside k in
        let (g', e, k') = add_edges_lem deps id g₁ m k₁ in
        (g', rw (inside, e₁) e, Describes-ext (λ x _. ground arith) (λ d x md. ground arith) k')
  ]

-- The finished graph: a node's degree counts its dependencies that are to be started, and each of
-- those has it as a dependent as often.
abbrev pub degree_of : Daemons → Ids → Ids → DaemonId → ℕ
degree_of all_daemons to_start processed x = pending to_start processed (depends_of all_daemons x)

abbrev pub edge_count : Daemons → DaemonId → DaemonId → ℕ
edge_count all_daemons d x = count d (depends_of all_daemons x)

-- Every daemon to start is configured.
abbrev pub IsConfigured : Daemons → Ids → Type 0
IsConfigured all_daemons ids =
    (x : DaemonId)
    → elem x ids ≡ true
    → (daemon : PitchforkTomlDaemon) × (get x all_daemons ≡ some daemon)

module _ (all_daemons : Daemons) (to_start : Ids) where
  abbrev degree : DaemonId → ℕ
  degree = degree_of all_daemons to_start []

  -- One more node adds what its dependencies count for to its own share.
  add_share :
      (size : Ids → ℕ) (n : ℕ) (id x : DaemonId) (ids : Ids) (daemon : PitchforkTomlDaemon)
      → get id all_daemons ≡ some daemon
      → (n + (if id_eq id x then size daemon.depends else 0))
          + count x ids * size (depends_of all_daemons x)
        ≡ n + count x (id ∷ ids) * size (depends_of all_daemons x)
  unfolding count
  add_share size n id x ids daemon found = elim (Bool-cases (id_eq id x)) [
    | inr other ↦ ground arith
    | inl same ↦
        subst
          (λ y.
            (n + (if id_eq id y then size daemon.depends else 0))
              + count y ids * size (depends_of all_daemons y)
            ≡ n + count y (id ∷ ids) * size (depends_of all_daemons y))
          ((id_eq_iff id x).0 same)
          (rw (depends_of-found all_daemons id found, id_eq_refl) (omega arith))
  ]

  add_all_lem :
      (ids : Ids) {f : DaemonId → ℕ} {h : DaemonId → DaemonId → ℕ} (g : Graph)
      → ((x : DaemonId) → elem x ids ≡ true → elem x to_start ≡ true)
      → IsConfigured all_daemons ids
      → Describes to_start f h g
      → Finds (add_all all_daemons to_start ids g) (
          Describes to_start
            (λ x. f x + count x ids * degree x)
            (λ d x. h d x + count x ids * edge_count all_daemons d x))
  unfolding add_all count elem
  add_all_lem [] g sub conf k =
      (g, refl, Describes-ext (λ x _. omega arith) (λ d x _. omega arith) k)
  add_all_lem (id ∷ ids) {f} {h} g sub conf k =
      let (daemon, found) = conf id (elem_self id ids) in
      let (g₁, e₁, k₁) = add_edges_lem to_start daemon.depends id g (sub id (elem_self id ids)) k in
      let (g', e, k') =
        add_all_lem ids g₁ (λ x m. sub x (elem-tail x id ids m))
          (λ x m. conf x (elem-tail x id ids m)) k₁ in
      (
        g',
        rw (found, add_all) (rw e₁ e),
        Describes-ext
            (λ x _. add_share (λ daemons. pending to_start [] daemons) (f x) id x ids daemon found)
            (λ d x _. add_share (count d) (h d x) id x ids daemon found) k',
      )

-- `add_all` never meets an internal error on a set of configured daemons, and finds the graph.
pub graph_found :
    (all_daemons : Daemons) (to_start : Ids)
    → IsSetOf to_start
    → IsConfigured all_daemons to_start
    → Finds (add_all all_daemons to_start to_start (add_nodes to_start empty_graph)) (
        Describes to_start
          (degree_of all_daemons to_start [])
          (λ d x. count x to_start * edge_count all_daemons d x))
graph_found all_daemons to_start set conf =
    let (g, e, k) =
      add_all_lem all_daemons to_start to_start (add_nodes to_start empty_graph) (λ x m. m) conf
        (start-Describes to_start) in
    (g, e, Describes-ext (λ x m. once x m) (λ d x _. omega arith) k)
  where
    once :
        (x : DaemonId)
        → elem x to_start ≡ true
        → 0 + count x to_start * degree_of all_daemons to_start [] x
          ≡ degree_of all_daemons to_start [] x
    once x m =
        let e : count x to_start ≡ 1 = omega (arith, set x, elem→count x to_start m) in
        rw e (omega arith)
