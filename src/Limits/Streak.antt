-- ===== src/Limits/Streak.antt =====
-- What leads to a kill in `check_resource_limits` of src/supervisor/watchers.rs.
use pitchfork.Prelude.{
  ℕ, suc, ◌+◌, ◌%◌, ◌^◌, ◌≤◌, ◌≡◌, inl, inr, refl, leb, false, Option, none, some, List, [], ◌∷◌,
  if◌then◌else◌, arith, Bool-cases, subst, sym, ◌∙◌, All,
}
use pitchfork.DaemonId.{DaemonId, id_eq, id_eq_iff}
use pitchfork.Config.{CpuLimit}
use pitchfork.Daemon.{Daemon}
use pitchfork.Deps.{elem}
use pitchfork.Map.{Map, insert, remove, id_key}
use pitchfork.Map.Laws.{get-insert, get-remove}
use pitchfork.State.{StateFile}
use pitchfork.Limits.{
  Stats, gt_f32, over_memory, Checking, count, kill_one, strike, check_cpu, check_stats,
  check_measured, check_pid, check_each,
}

count-remove_same : (id : DaemonId) (m : Map DaemonId ℕ) → count id (remove id m) ≡ 0
count-remove_same id m = rw (get-remove id id m) (ground (arith, id_eq_iff id id))

count-remove_other :
    (id x : DaemonId) (m : Map DaemonId ℕ) → id_eq id x ≡ false → count x (remove id m) ≡ count x m
count-remove_other id x m other = rw (get-remove id x m, other) refl

count-insert_same : (id : DaemonId) (n : ℕ) (m : Map DaemonId ℕ) → count id (insert id n m) ≡ n
count-insert_same id n m = rw (get-insert id id n m) (ground (arith, id_eq_iff id id))

count-insert_other :
    (id x : DaemonId) (n : ℕ) (m : Map DaemonId ℕ)
    → id_eq id x ≡ false
    → count x (insert id n m) ≡ count x m
count-insert_other id x n m other = rw (get-insert id x n m, other) refl

-- The samples above the limit in a row, after this one.
abbrev pub cpu_streak : Option CpuLimit → Stats → ℕ → ℕ
cpu_streak none stats n = n
cpu_streak (some limit) stats n = if gt_f32 stats.cpu_percent limit.bits then suc n else 0

-- Each daemon stands in the list once.
abbrev pub Distinct : List Daemon → Type 0
Distinct [] = Unit
Distinct (d ∷ ds) = All (λ e. id_eq e.id d.id ≡ false) ds × Distinct ds

abbrev pub measured_streak : Daemon → Option Stats → ℕ → ℕ
measured_streak d none n = 0
measured_streak d (some stats) n = if over_memory d stats then 0 else cpu_streak d.cpu_limit stats n

module _ (stats_of : ℕ → Option Stats) where
  abbrev pub pid_streak : Daemon → Option ℕ → ℕ → ℕ
  pid_streak d none n = 0
  pid_streak d (some pid) n = measured_streak d (stats_of pid) n

  abbrev pub list_streak : DaemonId → List Daemon → ℕ → ℕ
  list_streak x [] n = 0
  list_streak x (d ∷ ds) n = if id_eq d.id x then pid_streak d d.pid n else list_streak x ds n

  cpu_streak_mono :
      (limit : Option CpuLimit) (stats : Stats) (m n : ℕ)
      → m ≤ n
      → cpu_streak limit stats m ≤ cpu_streak limit stats n
  cpu_streak_mono none stats m n h = h
  cpu_streak_mono (some limit) stats m n h =
      elim (Bool-cases (gt_f32 stats.cpu_percent limit.bits)) [
        | inl over ↦ rw over (omega arith)
        | inr within ↦ rw within (omega arith)
      ]

  measured_streak_mono :
      (d : Daemon) (stats : Option Stats) (m n : ℕ)
      → m ≤ n
      → measured_streak d stats m ≤ measured_streak d stats n
  measured_streak_mono d none m n h = omega arith
  measured_streak_mono d (some stats) m n h = elim (Bool-cases (over_memory d stats)) [
    | inl over ↦ rw over (omega arith)
    | inr within ↦ rw within (cpu_streak_mono d.cpu_limit stats m n h)
  ]

  pub pid_streak_mono :
      (d : Daemon) (pid : Option ℕ) (m n : ℕ) → m ≤ n → pid_streak d pid m ≤ pid_streak d pid n
  pid_streak_mono d none m n h = omega arith
  pid_streak_mono d (some pid) m n h = measured_streak_mono d (stats_of pid) m n h

  pub list_streak_mono :
      (x : DaemonId) (ds : List Daemon) (m n : ℕ) → m ≤ n → list_streak x ds m ≤ list_streak x ds n
  list_streak_mono x [] m n h = omega arith
  list_streak_mono x (d ∷ ds) m n h = elim (Bool-cases (id_eq d.id x)) [
    | inr other ↦ rw other (list_streak_mono x ds m n h)
    | inl here ↦ rw here (pid_streak_mono d d.pid m n h)
  ]

module _ (stats_of : ℕ → Option Stats) (later : DaemonId → StateFile) (threshold : ℕ) where
  -- The count of another daemon, and whether it is active, are as they were.
  abbrev pub Untouched : DaemonId → Checking → Checking → Type 0
  Untouched x c c' =
      (count x c'.counts ≡ count x c.counts) × (elem x c'.active_ids ≡ elem x c.active_ids)

  strike-other :
      (id x : DaemonId) (pid : ℕ) (c : Checking)
      → id_eq id x ≡ false
      → Untouched x c (strike stats_of later threshold id pid c)
  unfolding strike
  strike-other id x pid c other =
      elim (Bool-cases (leb threshold ((count id c.counts + 1) % 2 ^ 32))) [
        | inl reached ↦ rw reached (count-remove_other id x c.counts other, refl)
        | inr below ↦ rw below (count-insert_other id x _ c.counts other, refl)
      ]

  strike-same :
      (id : DaemonId) (pid : ℕ) (c : Checking)
      → count id (strike stats_of later threshold id pid c).counts ≤ suc (count id c.counts)
  unfolding strike
  strike-same id pid c = elim (Bool-cases (leb threshold ((count id c.counts + 1) % 2 ^ 32))) [
    | inl reached ↦ rw (reached, count-remove_same id c.counts) (omega arith)
    | inr below ↦
        rw (below, count-insert_same id ((count id c.counts + 1) % 2 ^ 32) c.counts) (omega arith)
  ]

  check_cpu-other :
      (id x : DaemonId) (limit : Option CpuLimit) (pid : ℕ) (stats : Stats) (c : Checking)
      → id_eq id x ≡ false
      → Untouched x c (check_cpu stats_of later threshold id limit pid stats c)
  unfolding check_cpu
  check_cpu-other id x none pid stats c other = (refl, refl)
  check_cpu-other id x (some limit) pid stats c other =
      elim (Bool-cases (gt_f32 stats.cpu_percent limit.bits)) [
        | inl over ↦ rw over (strike-other id x pid c other)
        | inr within ↦ rw within (count-remove_other id x c.counts other, refl)
      ]

  check_cpu-same :
      (id : DaemonId) (limit : Option CpuLimit) (pid : ℕ) (stats : Stats) (c : Checking)
      → count id (check_cpu stats_of later threshold id limit pid stats c).counts
        ≤ cpu_streak limit stats (count id c.counts)
  unfolding check_cpu
  check_cpu-same id none pid stats c = omega arith
  check_cpu-same id (some limit) pid stats c =
      elim (Bool-cases (gt_f32 stats.cpu_percent limit.bits)) [
        | inl over ↦ rw over (strike-same id pid c)
        | inr within ↦ rw (within, count-remove_same id c.counts) (omega arith)
      ]

  -- The count that is kept when the daemons that are not active are forgotten.
  abbrev pub kept : DaemonId → Checking → ℕ
  kept x c = if elem x c.active_ids then count x c.counts else 0

  kept-le : (x : DaemonId) (c : Checking) → kept x c ≤ count x c.counts
  kept-le x c = elim (Bool-cases (elem x c.active_ids)) [
    | inl active ↦ rw active (omega arith)
    | inr gone ↦ rw gone (omega arith)
  ]

  check_measured-other :
      (d : Daemon) (x : DaemonId) (pid : ℕ) (stats : Option Stats) (c : Checking)
      → id_eq d.id x ≡ false
      → Untouched x c (check_measured stats_of later threshold d pid stats c)
  unfolding check_measured check_stats elem
  check_measured-other d x pid none c other = (refl, refl)
  check_measured-other d x pid (some stats) c other =
      let active : elem x (d.id ∷ c.active_ids) ≡ elem x c.active_ids = rw other refl in
      elim (Bool-cases (over_memory d stats)) [
        | inl over ↦ rw over (count-remove_other d.id x c.counts other, active)
        | inr within ↦
            let (same, rest) =
              check_cpu-other d.id x d.cpu_limit pid stats
                (record c { active_ids = d.id ∷ c.active_ids }) other in
            rw within (same, rest ∙ active)
      ]

  check_measured-same :
      (d : Daemon) (pid : ℕ) (stats : Option Stats) (c : Checking)
      → elem d.id c.active_ids ≡ false
      → kept d.id (check_measured stats_of later threshold d pid stats c)
        ≤ measured_streak d stats (count d.id c.counts)
  unfolding check_measured check_stats
  check_measured-same d pid none c new = rw new (omega arith)
  check_measured-same d pid (some stats) c new =
      let c' : Checking = record c { active_ids = d.id ∷ c.active_ids } in
      elim (Bool-cases (over_memory d stats)) [
        | inl over ↦ rw over (
            subst (λ n. kept d.id (kill_one stats_of later threshold d.id pid c') ≤ n)
              (count-remove_same d.id c.counts)
              (kept-le d.id (kill_one stats_of later threshold d.id pid c')))
        | inr within ↦ rw within (
            let le =
              kept-le d.id (check_cpu stats_of later threshold d.id d.cpu_limit pid stats c') in
            let small = check_cpu-same d.id d.cpu_limit pid stats c' in omega arith)
      ]

  pub check_pid-other :
      (d : Daemon) (x : DaemonId) (pid : Option ℕ) (c : Checking)
      → id_eq d.id x ≡ false
      → Untouched x c (check_pid stats_of later threshold d pid c)
  unfolding check_pid
  check_pid-other d x none c other = (refl, refl)
  check_pid-other d x (some pid) c other = check_measured-other d x pid (stats_of pid) c other

  check_pid-same :
      (d : Daemon) (pid : Option ℕ) (c : Checking)
      → elem d.id c.active_ids ≡ false
      → kept d.id (check_pid stats_of later threshold d pid c)
        ≤ pid_streak stats_of d pid (count d.id c.counts)
  unfolding check_pid
  check_pid-same d none c new = rw new (omega arith)
  check_pid-same d (some pid) c new = check_measured-same d pid (stats_of pid) c new

  check_each-absent :
      (x : DaemonId) (ds : List Daemon) (c : Checking)
      → All (λ d. id_eq d.id x ≡ false) ds
      → Untouched x c (check_each stats_of later threshold ds c)
  unfolding check_each
  check_each-absent x [] c h = (refl, refl)
  check_each-absent x (d ∷ ds) c h =
      let (count_same, active_same) = check_pid-other d x d.pid c h.0 in
      let (counts, actives) =
        check_each-absent x ds (check_pid stats_of later threshold d d.pid c) h.1 in
      (counts ∙ count_same, actives ∙ active_same)

  pub kept-check_each :
      (x : DaemonId) (ds : List Daemon) (c : Checking)
      → Distinct ds
      → elem x c.active_ids ≡ false
      → kept x (check_each stats_of later threshold ds c)
        ≤ list_streak stats_of x ds (count x c.counts)
  unfolding check_each
  kept-check_each x [] c h new = rw new (omega arith)
  kept-check_each x (d ∷ ds) c h new =
      let c' = check_pid stats_of later threshold d d.pid c in
      elim (Bool-cases (id_eq d.id x)) [
        | inr other ↦
            let (counts, actives) = check_pid-other d x d.pid c other in
            rw other (
              subst
                (λ n.
                  kept x (check_each stats_of later threshold ds c') ≤ list_streak stats_of x ds n)
                counts (kept-check_each x ds c' h.1 (actives ∙ new)))
        | inl here ↦
            let same : x ≡ d.id = sym ((id_eq_iff d.id x).0 here) in
            rw (here, same)
              (let (counts, actives) = check_each-absent d.id ds c' h.0 in
                rw (counts, actives)
                  (check_pid-same d d.pid c (subst (λ y. elem y c.active_ids ≡ false) same new)))
      ]
