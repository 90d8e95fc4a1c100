-- ===== src/Deps/Examples.antt =====
-- Runs of src/deps.rs on a small configuration: a web server behind an interface behind a database.
use pitchfork.Prelude.{
  ℕ, ◌<◌, ◌≡◌, ◌≢◌, refl, true, false, none, some, List, [], ◌∷◌, arith, ok, err, keep,
  if◌then◌else◌,
}
use pitchfork.Text.{Text, codes, text_eq, text_le}
use pitchfork.DaemonId.{DaemonId, qualified, id_eq, id_le, id_eq_iff}
use pitchfork.Config.{PitchforkTomlDaemon, Daemons, default_daemon}
use pitchfork.Deps.{
  Ids, elem, get, sort, insert_sorted, resolve_dependencies, collect, enqueue, order_levels,
  add_nodes, add_node, add_edge, add_edges, add_all, release, process_level, process_levels,
  unprocessed, total_depends, circular_dependency, contains_key,
}
use pitchfork.Similar.{FuzzyMatch}
use pitchfork.Deps.StopOrder.{stop_levels, stop_order, compute_reverse_stop_order_with_config}
use pitchfork.Deps.Count.{count, IsSetOf}
use pitchfork.Deps.Nodes.{depends_of}
use pitchfork.Deps.Queue.{Needed}
use pitchfork.Deps.Resolve.{Resolved, resolve_dependencies-Resolved}
use pitchfork.Deps.Start.{resolve_dependencies_acyclic}
use pitchfork.Deps.Stop.{IsShutdown}
use pitchfork.Deps.Shutdown.{stop_order-IsShutdown}

abbrev db : DaemonId
db = record { namespace = codes "g"; name = codes "db" }

abbrev api : DaemonId
api = record { namespace = codes "g"; name = codes "api" }

abbrev web : DaemonId
web = record { namespace = codes "g"; name = codes "web" }

abbrev with : Ids → PitchforkTomlDaemon
with depends = record default_daemon { depends = depends }

abbrev config : Daemons
config = (api, with (db ∷ [])) ∷ (db, with []) ∷ (web, with (api ∷ db ∷ [])) ∷ []

-- A configuration in which the interface and the web server wait for each other.
abbrev knotted : Daemons
knotted = (api, with (web ∷ [])) ∷ (db, with []) ∷ (web, with (api ∷ db ∷ [])) ∷ []

abbrev no_match : FuzzyMatch
no_match candidate name = none

abbrev as_is : Ids → Ids
as_is ids = ids

abbrev start_levels : List Ids
start_levels = (db ∷ []) ∷ (api ∷ []) ∷ (web ∷ []) ∷ []

started : resolve_dependencies no_match as_is (web ∷ []) config ≡ ok start_levels
unfolding resolve_dependencies collect enqueue order_levels add_nodes add_node add_edge add_edges
    add_all release process_level process_levels total_depends sort insert_sorted elem get id_eq
    id_le text_eq text_le
started = refl

abbrev knotted_names : List Text
knotted_names = codes "g/api" ∷ codes "g/web" ∷ []

stuck :
    resolve_dependencies no_match as_is (web ∷ []) knotted ≡ err (circular_dependency knotted_names)
unfolding resolve_dependencies collect enqueue order_levels add_nodes add_node add_edge add_edges
    add_all release process_level process_levels total_depends sort insert_sorted elem get id_eq
    id_le text_eq text_le unprocessed qualified
stuck = refl

-- Two names that differ are not both the same third one.
differ : (a b x : DaemonId) → id_eq a b ≡ false → id_eq a x ≡ true → id_eq b x ≡ true → ⊥
differ a b x h p q = ground (arith, id_eq_iff a b, id_eq_iff a x, id_eq_iff b x)

web-api : id_eq web api ≡ false
unfolding id_eq text_eq
web-api = refl

web-db : id_eq web db ≡ false
unfolding id_eq text_eq
web-db = refl

api-db : id_eq api db ≡ false
unfolding id_eq text_eq
api-db = refl

rank : DaemonId → ℕ
rank x = if id_eq web x then 2 else (if id_eq api x then 1 else 0)

config-IsRanked :
    (x d : DaemonId)
    → Needed config (web ∷ []) x
    → elem d (depends_of config x) ≡ true
    → rank d < rank x
unfolding rank elem get
config-IsRanked x d n m = ground (
  arith,
  differ web api x web-api,
  differ web db x web-db,
  differ api db x api-db,
  differ web api d web-api,
  differ web db d web-db,
  differ api db d api-db,
)

configured : (x : DaemonId) → Needed config (web ∷ []) x → get x config ≢ none
unfolding elem get
configured x (Needed.root _ m) h = ground arith
configured d (Needed.dependency x _ n m) h =
    ground (arith, differ web api x web-api, differ web db x web-db, differ api db x api-db)

active_set : IsSetOf (web ∷ api ∷ db ∷ [])
unfolding count
active_set x =
    ground (arith, differ web api x web-api, differ web db x web-db, differ api db x api-db)

resolve_dependencies-Resolved_example :
    Resolved config (web ∷ []) no_match (resolve_dependencies no_match as_is (web ∷ []) config)
resolve_dependencies-Resolved_example =
    resolve_dependencies-Resolved no_match as_is (λ ids x. refl) config (web ∷ [])

resolve_dependencies_acyclic_example :
    (levels : List Ids) × (resolve_dependencies no_match as_is (web ∷ []) config ≡ ok levels)
resolve_dependencies_acyclic_example =
    resolve_dependencies_acyclic no_match as_is (λ ids x. refl) config (web ∷ []) rank
      config-IsRanked configured

abbrev all_active : Ids
all_active = web ∷ api ∷ db ∷ []

resolved_active :
    resolve_dependencies no_match as_is (keep (λ id. contains_key id config) all_active) config
    ≡ ok start_levels
unfolding resolve_dependencies collect enqueue order_levels add_nodes add_node add_edge add_edges
    add_all release process_level process_levels total_depends sort insert_sorted elem get id_eq
    id_le text_eq text_le
resolved_active = refl

stop_order-IsShutdown_example :
    IsShutdown config []
      (compute_reverse_stop_order_with_config no_match as_is all_active (some config) none)
stop_order-IsShutdown_example =
    stop_order-IsShutdown no_match as_is (λ ids x. refl) all_active config none start_levels
      resolved_active

-- The last to start is the first to stop.
stopped :
    compute_reverse_stop_order_with_config no_match as_is all_active (some config) none
    ≡ (web ∷ []) ∷ (api ∷ []) ∷ (db ∷ []) ∷ []
unfolding compute_reverse_stop_order_with_config stop_order stop_levels resolve_dependencies collect
    enqueue order_levels add_nodes add_node add_edge add_edges add_all release process_level
    process_levels total_depends sort insert_sorted elem get id_eq id_le text_eq text_le
stopped = refl
