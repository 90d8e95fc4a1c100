-- ===== src/Deps/StopOrder.antt =====
-- The order in which daemons stop, of src/deps.rs.
use pitchfork.Prelude.{
  Option, none, some, List, [], ◌∷◌, ◌++◌, not, if◌then◌else◌, is_empty, keep, ok, err,
}
use mathlib.Core.List.{reverse}
use pitchfork.Config.{Daemons}
use pitchfork.Similar.{FuzzyMatch}
use pitchfork.Deps.{Ids, elem, contains_key, resolve_dependencies}

-- The levels of a resolution, from the last to the first, without what is not to be stopped.
unfoldable pub stop_levels : Ids → List Ids → List Ids
stop_levels active [] = []
stop_levels active (level ∷ levels) =
    let filtered = keep (λ id. elem id active) level in
    let rest = stop_levels active levels in if is_empty filtered then rest else filtered ∷ rest

abbrev pub adhoc_level : Ids → List Ids
adhoc_level [] = []
adhoc_level (id ∷ ids) = (id ∷ ids) ∷ []

-- The configuration that the caller has, or that can be read; `none` where reading it fails.
abbrev pub config_or : (config all_merged : Option Daemons) → Option Daemons
config_or none all_merged = all_merged
config_or (some pt) all_merged = some pt

-- What is stopped in which order, of the daemons that the configuration has and of the others.
unfoldable pub stop_order :
    FuzzyMatch → (Ids → Ids) → Ids → Daemons → (config_ids adhoc_ids : Ids) → List Ids
stop_order fuzzy_match hash_order active_ids pt config_ids adhoc_ids =
    if is_empty config_ids
    then active_ids ∷ []
    else elim (resolve_dependencies fuzzy_match hash_order config_ids pt) [
      | err _ ↦ active_ids ∷ []
      | ok levels ↦ adhoc_level adhoc_ids ++ stop_levels active_ids (reverse levels)
    ]

unfoldable pub compute_reverse_stop_order_with_config :
    FuzzyMatch → (Ids → Ids) → Ids → (config all_merged : Option Daemons) → List Ids
compute_reverse_stop_order_with_config fuzzy_match hash_order active_ids config all_merged =
    if is_empty active_ids then [] else elim (config_or config all_merged) [
      | none ↦ active_ids ∷ []
      | some pt ↦
          stop_order fuzzy_match hash_order active_ids pt
            (keep (λ id. contains_key id pt) active_ids)
            (keep (λ id. not (contains_key id pt)) active_ids)
    ]

unfoldable pub compute_reverse_stop_order :
    FuzzyMatch → (Ids → Ids) → Ids → (all_merged : Option Daemons) → List Ids
compute_reverse_stop_order fuzzy_match hash_order active_ids all_merged =
    compute_reverse_stop_order_with_config fuzzy_match hash_order active_ids none all_merged
