-- ===== src/Deps/Nodes.antt =====
-- Step 2 of `resolve_dependencies` in src/deps.rs: what a graph says, and the graph without edges.
use pitchfork.Prelude.{
  ℕ, suc, ◌≡◌, Bool, true, not, ◌&&◌, none, some, [], ◌∷◌, arith, refl, ◌∙◌, if◌then◌else◌, Result,
  ok, Bool-cases, ◌⊎◌, inl, inr,
}
use pitchfork.DaemonId.{DaemonId, id_eq, id_eq_iff}
use pitchfork.Config.{Daemons, PitchforkTomlDaemon}
use pitchfork.Deps.{Ids, elem, get, Graph, empty_graph, add_node, add_nodes, DependencyError}
use pitchfork.Deps.Count.{count}

abbrev pub depends_of : Daemons → DaemonId → Ids
depends_of all_daemons id = elim (get id all_daemons) [ some daemon ↦ daemon.depends | none ↦ [] ]

pub depends_of-found :
    (all_daemons : Daemons) (id : DaemonId) {daemon : PitchforkTomlDaemon}
    → get id all_daemons ≡ some daemon
    → depends_of all_daemons id ≡ daemon.depends
depends_of-found all_daemons id e = ground arith

-- How many of the dependencies are to be started and not processed yet.
unfoldable pub pending : (to_start processed deps : Ids) → ℕ
pending to_start processed [] = 0
pending to_start processed (dep ∷ deps) =
    let rest = pending to_start processed deps in
    if elem dep to_start && not (elem dep processed) then suc rest else rest

abbrev pub one_if : Bool → ℕ
one_if b = if b then 1 else 0

-- The maps have all the nodes: a node's degree, and how often it has another as a dependent.
pub record Describes (to_start : Ids) (degree : DaemonId → ℕ) (edges : DaemonId → DaemonId → ℕ)
    (g : Graph) : Type 0 where
  pub degrees : (x : DaemonId) → elem x to_start ≡ true → g.in_degree x ≡ some (degree x)
  pub adjacent :
      (d : DaemonId)
      → elem d to_start ≡ true
      → (ids : Ids) × (g.dependents d ≡ some ids) × ((x : DaemonId) → count x ids ≡ edges d x)

pub Describes-ext :
    {to_start : Ids} {f f' : DaemonId → ℕ} {h h' : DaemonId → DaemonId → ℕ} {g : Graph}
    → ((x : DaemonId) → elem x to_start ≡ true → f x ≡ f' x)
    → ((d x : DaemonId) → elem d to_start ≡ true → h d x ≡ h' d x)
    → Describes to_start f h g
    → Describes to_start f' h' g
Describes-ext p q k = record {
  degrees = λ x m. rw (k.degrees x m, p x m);
  adjacent = λ d m. let (ids, e, c) = k.adjacent d m in (ids, e, λ x. c x ∙ q d x m);
}

-- Each node is either absent from both maps, or as it was put in.
abbrev IsNew : Graph → DaemonId → Type 0
IsNew g x = (g.in_degree x ≡ some 0) × (g.dependents x ≡ some [])

abbrev IsAbsent : Graph → DaemonId → Type 0
IsAbsent g x = (g.in_degree x ≡ none) × (g.dependents x ≡ none)

add_node-fresh :
    (id : DaemonId) (g : Graph) (x : DaemonId)
    → (IsAbsent g id ⊎ IsNew g id)
    → (IsAbsent g x ⊎ IsNew g x)
    → (IsAbsent (add_node id g) x ⊎ IsNew (add_node id g) x)
unfolding add_node
add_node-fresh id g x (inl h) (inl k) = elim (Bool-cases (id_eq id x)) [
  | inl e ↦ inr (ground arith, ground arith)
  | inr e ↦ inl (ground arith, ground arith)
]
add_node-fresh id g x (inl h) (inr k) = inr (ground arith, ground arith)
add_node-fresh id g x (inr h) (inl k) = inl (ground arith, ground arith)
add_node-fresh id g x (inr h) (inr k) = inr (ground arith, ground arith)

add_node-has :
    (id : DaemonId) (g : Graph) (x : DaemonId)
    → (IsAbsent g id ⊎ IsNew g id)
    → (IsNew g x ⊎ (id_eq id x ≡ true))
    → IsNew (add_node id g) x
unfolding add_node
add_node-has id g x (inl h) (inl k) = (ground arith, ground arith)
add_node-has id g x (inl h) (inr k) = (ground arith, ground arith)
add_node-has id g x (inr h) (inl k) = (ground arith, ground arith)
add_node-has id g x (inr h) (inr k) =
    (ground (arith, id_eq_iff id x), ground (arith, id_eq_iff id x))

add_nodes_lem :
    (ids : Ids) (g : Graph) (x : DaemonId)
    → ((y : DaemonId) → (IsAbsent g y ⊎ IsNew g y))
    → (IsNew g x ⊎ (elem x ids ≡ true))
    → IsNew (add_nodes ids g) x
unfolding add_nodes elem
add_nodes_lem [] g x h (inl k) = k
add_nodes_lem [] g x h (inr k) = cc
add_nodes_lem (id ∷ ids) g x h k =
    add_nodes_lem ids (add_node id g) x (λ y. add_node-fresh id g y (h id) (h y))
      (elim k [
        | inl new ↦ inl (add_node-has id g x (h id) (inl new))
        | inr e ↦ elim (Bool-cases (id_eq id x)) [
          | inl same ↦ inl (add_node-has id g x (h id) (inr same))
          | inr other ↦ inr (ground arith)
        ]
      ])

pub start-Describes :
    (to_start : Ids) → Describes to_start (λ _. 0) (λ _ _. 0) (add_nodes to_start empty_graph)
unfolding count
start-Describes to_start = record {
  degrees = λ x m. (nodes x m).0;
  adjacent = λ d m. ([], (nodes d m).1, λ x. refl);
}
  where
    nodes : (x : DaemonId) → elem x to_start ≡ true → IsNew (add_nodes to_start empty_graph) x
    nodes x m = add_nodes_lem to_start empty_graph x (λ y. inl (refl, refl)) (inr m)

abbrev pub Finds : Result DependencyError Graph → (Graph → Type 0) → Type 0
Finds r P = (g : Graph) × (r ≡ ok g) × P g
