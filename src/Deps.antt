-- ===== src/Deps.antt =====
-- src/deps.rs: the order in which daemons start; the order in which they stop is in the module
-- StopOrder. A hash set or map is iterated in an order that the program does not know: the
-- parameter `hash_order` picks it for the set of daemons to start. The `usize` degrees are numbers,
-- and a subtraction below 0 is a panic.
pub mod Count
pub mod Nodes
pub mod Edges
pub mod Release
pub mod Levels
pub mod Loop
pub mod Order
pub mod Queue
pub mod Collect
pub mod Resolve
pub mod Start
pub mod StopOrder
pub mod Stop
pub mod Shutdown
mod Examples
use pitchfork.Prelude.{
  ℕ, zero, suc, ◌+◌, ◌-◌, ◌≡◌, Bool, true, false, not, ◌&&◌, ◌||◌, Option, none, some, List, [],
  ◌∷◌, ◌++◌, map, arith, ◌==◌, leb, ltb, if◌then◌else◌, is_empty, length, keep, Result, ok, err,
  ◌>>=◌, ◌>>◌, refuse, ℤ, pos, negsuc, leb_ℤ,
}
use mathlib.Core.List.{reverse, flatten}
use pitchfork.Text.{Text, codes, text_le}
use pitchfork.DaemonId.{DaemonId, id_eq, id_le, qualified}
use pitchfork.Config.{PitchforkTomlDaemon, Daemons}
use pitchfork.Similar.{FuzzyMatch, find_similar_daemon}

-- `internal` stands for the three internal errors, `underflow` for the panic of a subtraction, and
-- `out_of_fuel` belongs to the model only.
pub data DependencyError : Type 0 where
  daemon_not_found : (name : Text) (suggestion : Option Text) → DependencyError
  missing_dependency : (daemon dependency : Text) → DependencyError
  circular_dependency : (involved : List Text) → DependencyError
  internal underflow out_of_fuel : DependencyError

abbrev pub Ids : Type 0
Ids = List DaemonId

-- `HashSet::contains`, on the set's elements.
unfoldable pub elem : DaemonId → Ids → Bool
elem x [] = false
elem x (y ∷ ys) = id_eq y x || elem x ys

unfoldable pub get : DaemonId → Daemons → Option PitchforkTomlDaemon
get k [] = none
get k ((j, v) ∷ m) = if id_eq j k then some v else get k m

abbrev pub contains_key : DaemonId → Daemons → Bool
contains_key k m = elim (get k m) [ some _ ↦ true | none ↦ false ]

abbrev pub keys : Daemons → Ids
keys m = map (λ e. e.0) m

-- `sort()`: the same list for every sorting algorithm.
unfoldable pub insert_sorted {ℓ} : {A : Type ℓ} → (A → A → Bool) → A → List A → List A
insert_sorted le x [] = x ∷ []
insert_sorted le x (y ∷ ys) =
    let rest = insert_sorted le x ys in elim (le x y) [ true ↦ x ∷ y ∷ ys | false ↦ y ∷ rest ]

unfoldable pub sort {ℓ} : {A : Type ℓ} → (A → A → Bool) → List A → List A
sort le [] = []
sort le (x ∷ xs) = insert_sorted le x (sort le xs)

module _ (fuzzy_match : FuzzyMatch) (all_daemons : Daemons) where
  -- The loop over the dependencies of `id`: what is new goes to the back of the queue.
  unfoldable pub enqueue : Ids → DaemonId → Ids → Ids → Result DependencyError Ids
  enqueue to_start id [] queue = ok queue
  enqueue to_start id (dep ∷ deps) queue =
      let rest =
        enqueue to_start id deps (if elem dep to_start then queue else queue ++ dep ∷ []) in
      if contains_key dep all_daemons
      then rest
      else err (missing_dependency (qualified id) (qualified dep))

  abbrev pub not_found : DaemonId → DependencyError
  not_found id =
      daemon_not_found (qualified id)
        (find_similar_daemon fuzzy_match (qualified id) (map qualified (keys all_daemons)))

  -- Step 1: the requested daemons and, from those, all that they depend on.
  unfoldable pub collect : ℕ → Ids → Ids → Result DependencyError Ids
  collect fuel to_start [] = ok to_start
  collect zero to_start (id ∷ queue) = err out_of_fuel
  collect (suc fuel) to_start (id ∷ queue) = elim (elem id to_start) [
    | true ↦ collect fuel to_start queue
    | false ↦ elim (get id all_daemons) [
      | none ↦ err (not_found id)
      | some daemon ↦ elim (enqueue (id ∷ to_start) id daemon.depends queue) [
        | err e ↦ err e
        | ok queue' ↦ collect fuel (id ∷ to_start) queue'
      ]
    ]
  ]

-- Step 2: the adjacency list and the degrees, two maps. `keys` of both are the daemons to start.
pub record Graph : Type 0 where
  pub in_degree : DaemonId → Option ℕ
  pub dependents : DaemonId → Option Ids

abbrev pub update {ℓ} : {A : Type ℓ} → (DaemonId → Option A) → DaemonId → A → DaemonId → Option A
update m k v x = if id_eq k x then some v else m x

abbrev pub or_insert {ℓ} : {A : Type ℓ} → (DaemonId → Option A) → DaemonId → A → DaemonId → Option A
or_insert m k v x = elim (m k) [ some _ ↦ m x | none ↦ update m k v x ]

abbrev pub empty_graph : Graph
empty_graph = record { in_degree = λ _. none; dependents = λ _. none }

unfoldable pub add_node : DaemonId → Graph → Graph
add_node id g = record {
  in_degree = or_insert g.in_degree id 0;
  dependents = or_insert g.dependents id [];
}

unfoldable pub add_nodes : Ids → Graph → Graph
add_nodes [] g = g
add_nodes (id ∷ ids) g = add_nodes ids (add_node id g)

unfoldable pub add_edge : DaemonId → DaemonId → Graph → Result DependencyError Graph
add_edge id dep g = elim (g.in_degree id) [
  | none ↦ err internal
  | some degree ↦ elim (g.dependents dep) [
    | none ↦ err internal
    | some ids ↦ ok (record {
      in_degree = update g.in_degree id (degree + 1);
      dependents = update g.dependents dep (ids ++ id ∷ []);
    })
  ]
]

unfoldable pub add_edges : Ids → DaemonId → Ids → Graph → Result DependencyError Graph
add_edges to_start id [] g = ok g
add_edges to_start id (dep ∷ deps) g = do
  g' ← (if elem dep to_start then add_edge id dep g else ok g)
  add_edges to_start id deps g'

unfoldable pub add_all : Daemons → Ids → Ids → Graph → Result DependencyError Graph
add_all all_daemons to_start [] g = ok g
add_all all_daemons to_start (id ∷ ids) g = elim (get id all_daemons) [
  | none ↦ err internal
  | some daemon ↦ do
    g' ← add_edges to_start id daemon.depends g
    add_all all_daemons to_start ids g'
]

-- Step 3, the loop over the dependents of one daemon.
unfoldable pub release :
    Ids → (DaemonId → Option ℕ) → Ids → Result DependencyError ((DaemonId → Option ℕ) × Ids)
release [] in_degree next_level = ok (in_degree, next_level)
release (id ∷ ids) in_degree next_level = elim (in_degree id) [
  | none ↦ err internal
  | some zero ↦ err underflow
  | some (suc n) ↦
      release ids (update in_degree id n) (if n == 0 then next_level ++ id ∷ [] else next_level)
]

-- What the levels are computed from and into.
pub record Kahn : Type 0 where
  pub in_degree : DaemonId → Option ℕ
  pub processed : Ids
  pub next_level : Ids

-- Step 3, the loop over the daemons of one level.
unfoldable pub process_level : (DaemonId → Option Ids) → Ids → Kahn → Result DependencyError Kahn
process_level dependents [] k = ok k
process_level dependents (id ∷ ids) k = elim (dependents id) [
  | none ↦ err internal
  | some deps ↦ do
    (in_degree, next_level) ← release deps k.in_degree k.next_level
    process_level dependents ids
        (record { in_degree = in_degree; processed = id ∷ k.processed; next_level = next_level })
]

-- Step 3, the `while` loop.
unfoldable pub process_levels :
    ℕ → (DaemonId → Option Ids) → Ids → Kahn → List Ids → Result DependencyError (Ids × List Ids)
process_levels fuel dependents [] k levels = ok (k.processed, levels)
process_levels zero dependents (id ∷ ids) k levels = err out_of_fuel
process_levels (suc fuel) dependents (id ∷ ids) k levels =
    elim (process_level dependents (id ∷ ids) (record k { next_level = [] })) [
      | err e ↦ err e
      | ok k' ↦
          process_levels fuel dependents (sort id_le k'.next_level) k' (levels ++ (id ∷ ids) ∷ [])
    ]

abbrev pub has_degree_zero : Graph → DaemonId → Bool
has_degree_zero g id = elim (g.in_degree id) [ some n ↦ n == 0 | none ↦ false ]

-- The daemons of the cycles and those behind them, by name.
unfoldable pub unprocessed : Ids → Ids → Ids
unprocessed processed to_start = keep (λ id. not (elem id processed)) to_start

-- Steps 2 to 4, for the set of daemons to start, as the program happens to iterate it.
unfoldable pub order_levels : Daemons → Ids → Result DependencyError (List Ids)
order_levels all_daemons to_start = do
  g ← add_all all_daemons to_start to_start (add_nodes to_start empty_graph)
  (processed, levels) ←
      process_levels (suc (length to_start)) g.dependents
        (sort id_le (keep (has_degree_zero g) to_start))
        (record { in_degree = g.in_degree; processed = []; next_level = [] }) []
  if length processed == length to_start
      then ok levels
      else err (circular_dependency (sort text_le (map qualified (unprocessed processed to_start))))

-- The dependencies of all the daemons together: what the queue can still grow by.
unfoldable pub total_depends : Daemons → ℕ
total_depends [] = 0
total_depends ((_, daemon) ∷ m) = length daemon.depends + total_depends m

unfoldable pub resolve_dependencies :
    FuzzyMatch → (Ids → Ids) → Ids → Daemons → Result DependencyError (List Ids)
resolve_dependencies fuzzy_match hash_order requested all_daemons = do
  to_start ←
      collect fuzzy_match all_daemons (length requested + total_depends all_daemons) [] requested
  order_levels all_daemons (hash_order to_start)
