-- ===== src/Deps/Shutdown.antt =====
-- `compute_reverse_stop_order_with_config` of src/deps.rs: what is stopped, and in which order.
use mathlib.Core.List.{reverse}
use pitchfork.Prelude.{
  ◌≡◌, true, false, not, Option, some, List, [], ◌∷◌, ◌++◌, arith, refl, sym, ◌∙◌, append-nil,
  is_empty, keep, ok, inl, inr, Result-cases, Option-cases, Bool-cases,
}
use pitchfork.DaemonId.{DaemonId}
use pitchfork.Config.{Daemons}
use pitchfork.Deps.{Ids, elem, contains_key, resolve_dependencies}
use pitchfork.Deps.StopOrder.{
  stop_levels, adhoc_level, stop_order, config_or, compute_reverse_stop_order_with_config,
}
use pitchfork.Similar.{FuzzyMatch}
use pitchfork.Deps.Count.{count, count-keep, elem-eq-count, elem→count, IsSetOf}
use pitchfork.Deps.Nodes.{depends_of}
use pitchfork.Deps.Loop.{flat}
use pitchfork.Deps.Queue.{Needed}
use pitchfork.Deps.Resolve.{IsIteration, IsResolution}
use pitchfork.Deps.Start.{resolve_dependencies-IsResolution}
use pitchfork.Deps.Stop.{
  count-flat_append, count-flat-reverse, count-stop_levels, count-adhoc_level, IsShutdown,
  IsShutdown-reverse, IsShutdown-stop_levels, IsShutdown-after, elem-keep,
}

-- One level of everything.
flat_single : (x : DaemonId) (ids : Ids) → count x (flat (ids ∷ [])) ≡ count x ids
flat_single x ids = rw append-nil refl

pub count-empty : (x : DaemonId) (ids : Ids) → is_empty ids ≡ true → count x ids ≡ 0
unfolding count
count-empty x [] h = refl
count-empty x (id ∷ ids) h = cc

adhoc_first :
    (pt : Daemons) (adhoc : Ids) (rest : List Ids)
    → ((x : DaemonId) → elem x adhoc ≡ true → not (contains_key x pt) ≡ true)
    → ((x d : DaemonId)
        → elem x (flat rest) ≡ true
        → elem d (depends_of pt x) ≡ true
        → elem d adhoc ≡ false)
    → IsShutdown pt [] rest
    → IsShutdown pt [] (adhoc_level adhoc ++ rest)
unfolding elem
adhoc_first pt [] rest outside free h = h
adhoc_first pt (id ∷ ids) rest outside free h = (
  λ x d m n. ground (arith, outside x m),
  rw append-nil at (IsShutdown-after pt (id ∷ ids) [] rest free h),
)

module _ (fuzzy_match : FuzzyMatch) (hash_order : Ids → Ids) (iterates : IsIteration hash_order)
    (active_ids : Ids) where
  module _ (pt : Daemons) where
    abbrev config_ids : Ids
    config_ids = keep (λ id. contains_key id pt) active_ids

    abbrev adhoc_ids : Ids
    adhoc_ids = keep (λ id. not (contains_key id pt)) active_ids

    module _ (levels : List Ids) (h : IsResolution pt config_ids levels) where
      abbrev stopped : List Ids
      stopped = adhoc_level adhoc_ids ++ stop_levels active_ids (reverse levels)

      in_levels :
          (x : DaemonId)
          → elem x active_ids ≡ true
          → contains_key x pt ≡ true
          → elem x (flat levels) ≡ true
      in_levels x m k = (h.members x).1 (
          Needed.root x (
            ground (
              arith,
              elem-eq-count x config_ids,
              elem-eq-count x active_ids,
              count-keep (λ id. contains_key id pt) x active_ids,
            )))

      configured_only : (x : DaemonId) → elem x (flat levels) ≡ true → contains_key x pt ≡ true
      configured_only x m = let (daemon, e) = h.configured x m in ground (arith, e)

      count-stopped :
          IsSetOf active_ids → (x : DaemonId) → count x (flat stopped) ≡ count x active_ids
      count-stopped set x =
          count-flat_append x (adhoc_level adhoc_ids) (stop_levels active_ids (reverse levels))
          ∙ ground (
            arith,
            count-adhoc_level x adhoc_ids,
            count-keep (λ id. not (contains_key id pt)) x active_ids,
            count-stop_levels x active_ids (reverse levels),
            count-flat-reverse x levels,
            set x,
            h.once x,
            elem-eq-count x active_ids,
            elem-eq-count x (flat levels),
            in_levels x,
            configured_only x,
          )

      layered_deps :
          (x d : DaemonId)
          → elem x (flat levels) ≡ true
          → elem d (depends_of pt x) ≡ true
          → elem d (flat levels) ≡ true
      layered_deps x d m n = (h.members d).1 (Needed.dependency x d ((h.members x).0 m) n)

      count-rest :
          (x : DaemonId)
          → elem x (flat (stop_levels active_ids (reverse levels))) ≡ true
          → elem x (flat levels) ≡ true
      count-rest x m = ground (
        arith,
        elem→count x (flat (stop_levels active_ids (reverse levels))) m,
        count-stop_levels x active_ids (reverse levels),
        count-flat-reverse x levels,
        elem-eq-count x (flat levels),
      )

      not_adhoc : (d : DaemonId) → contains_key d pt ≡ true → elem d adhoc_ids ≡ false
      not_adhoc d k = ground (
        arith,
        elem-eq-count d adhoc_ids,
        count-keep (λ id. not (contains_key id pt)) d active_ids,
      )

      IsShutdown-stopped : IsShutdown pt [] stopped
      unfolding count
      IsShutdown-stopped =
          adhoc_first pt adhoc_ids (stop_levels active_ids (reverse levels))
            (λ x m. (elem-keep x (λ id. not (contains_key id pt)) active_ids m).0)
            (λ x d m n. not_adhoc d (configured_only d (layered_deps x d (count-rest x m) n)))
            (IsShutdown-stop_levels pt active_ids [] [] (reverse levels) (λ x m. m)
              (IsShutdown-reverse pt [] levels (λ x. omega (arith, h.once x)) h.layered))

  stop_order_members :
      (pt : Daemons)
      → IsSetOf active_ids
      → (x : DaemonId)
      → count x
          (flat (stop_order fuzzy_match hash_order active_ids pt (config_ids pt) (adhoc_ids pt)))
        ≡ count x active_ids
  unfolding stop_order
  stop_order_members pt set x = elim (Bool-cases (is_empty (config_ids pt))) [
    | inl none_configured ↦ rw (none_configured, stop_order) (flat_single x active_ids)
    | inr some_configured ↦
        elim (Result-cases (resolve_dependencies fuzzy_match hash_order (config_ids pt) pt)) [
          | inl (levels, e) ↦
              rw (some_configured, stop_order)
                (rw e (
                  count-stopped pt levels
                    (resolve_dependencies-IsResolution fuzzy_match hash_order iterates pt
                      (config_ids pt) levels e)
                    set x))
          | inr (failure, e) ↦ rw (some_configured, stop_order) (rw e (flat_single x active_ids))
        ]
  ]

  -- If the active daemons are each named once: whatever the configuration, whether it can be read,
  -- and whatever the order of a hash set, the levels hold the active daemons and
  -- nothing else, each once.
  pub stop_order-members :
      (config all_merged : Option Daemons)
      → IsSetOf active_ids
      → (x : DaemonId)
      → count x (
          flat (
            compute_reverse_stop_order_with_config fuzzy_match hash_order active_ids config
              all_merged))
        ≡ count x active_ids
  unfolding compute_reverse_stop_order_with_config count
  stop_order-members config all_merged set x = elim (Bool-cases (is_empty active_ids)) [
    | inl nothing ↦
        rw (nothing, compute_reverse_stop_order_with_config)
          (sym (count-empty x active_ids nothing))
    | inr something ↦ elim (Option-cases (config_or config all_merged)) [
      | inl unread ↦
          rw (something, compute_reverse_stop_order_with_config)
            (rw unread (flat_single x active_ids))
      | inr (pt, read) ↦
          rw (something, compute_reverse_stop_order_with_config)
            (rw read (stop_order_members pt set x))
    ]
  ]

  no_deps :
      (pt : Daemons)
      → is_empty (config_ids pt) ≡ true
      → (x d : DaemonId) → elem x active_ids ≡ true
      → elem d (depends_of pt x) ≡ true
      → elem d active_ids ≡ false
  unfolding elem
  no_deps pt h x d m n = ground (
    arith,
    count-empty x (config_ids pt) h,
    count-keep (λ id. contains_key id pt) x active_ids,
    elem→count x active_ids m,
  )

  -- If the active daemons of the configuration have an order, no daemon is stopped before or
  -- together with one that depends on it.
  pub stop_order-IsShutdown :
      (pt : Daemons) (all_merged : Option Daemons) (levels : List Ids)
      → resolve_dependencies fuzzy_match hash_order (keep (λ id. contains_key id pt) active_ids) pt
        ≡ ok levels
      → IsShutdown pt [] (
          compute_reverse_stop_order_with_config fuzzy_match hash_order active_ids
            (some pt)
            all_merged)
  unfolding compute_reverse_stop_order_with_config stop_order
  stop_order-IsShutdown pt all_merged levels e = elim (Bool-cases (is_empty active_ids)) [
    | inl nothing ↦ rw (nothing, compute_reverse_stop_order_with_config) tt
    | inr something ↦ elim (Bool-cases (is_empty (config_ids pt))) [
      | inl none_configured ↦
          rw (something, compute_reverse_stop_order_with_config)
            (rw (none_configured, stop_order) (λ x d m n. no_deps pt none_configured x d m n, tt))
      | inr some_configured ↦
          rw (something, compute_reverse_stop_order_with_config)
            (rw (some_configured, stop_order)
              (rw e (
                IsShutdown-stopped pt levels (
                  resolve_dependencies-IsResolution fuzzy_match hash_order iterates pt
                    (config_ids pt) levels e))))
    ]
  ]
