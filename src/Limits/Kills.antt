-- ===== src/Limits/Kills.antt =====
-- The checks of src/supervisor/watchers.rs one after another, and which processes they kill.
use pitchfork.Prelude.{
  ℕ, suc, ◌≤◌, ◌≡◌, ◌⊎◌, Bool, true, not, ◌||◌, Option, some, List, [], ◌∷◌, if◌then◌else◌,
  is_empty, All,
}
use pitchfork.DaemonId.{DaemonId}
use pitchfork.Config.{CpuLimit}
use pitchfork.Daemon.{Daemon}
use pitchfork.Map.{Map, id_key}
use pitchfork.State.{StateFile}
use pitchfork.Limits.{
  Stats, gt_f32, has_any_limits, to_check, over_memory, Kill, Checking, count, Tick, watch,
}
use pitchfork.Limits.Streak.{Distinct, list_streak}

module _ (stats_of : ℕ → Option Stats) (later : DaemonId → StateFile) (threshold : ℕ) where
  -- The process of the daemon uses more memory than its limit, or more of the processors than its
  -- limit after `n` samples in which it did.
  abbrev pub Exceeds : ℕ → Daemon → Kill → Type 0
  Exceeds n d k =
      (k.id ≡ d.id)
      × (d.pid ≡ some k.pid)
      × (stats : Stats) × (stats_of k.pid ≡ some stats)
      × ((over_memory d stats ≡ true)
          ⊎ ((limit : CpuLimit) × (d.cpu_limit ≡ some limit)
              × (gt_f32 stats.cpu_percent limit.bits ≡ true)
              × (threshold ≤ suc n)))

  -- One of the daemons does.
  abbrev pub SomeExceeds : (DaemonId → ℕ) → List Daemon → Kill → Type 0
  SomeExceeds n [] k = ⊥
  SomeExceeds n (d ∷ ds) k = Exceeds (n d.id) d k ⊎ SomeExceeds n ds k

  -- The counts of the daemons are at most these.
  abbrev Bounded : (DaemonId → ℕ) → List Daemon → Checking → Type 0
  Bounded n ds c = All (λ d. count d.id c.counts ≤ n d.id) ds

-- The round returns before it measures anything.
abbrev pub is_skipped : Tick → Bool
is_skipped t = not (has_any_limits t.state) || is_empty (to_check t.state)

-- The rounds in a row in which the daemon was above its limit, but for rounds that were skipped.
abbrev pub streak : DaemonId → List Tick → ℕ
streak x [] = 0
streak x (t ∷ earlier) =
    if is_skipped t
    then streak x earlier
    else list_streak t.stats_of x (to_check t.state) (streak x earlier)

abbrev pub AllDistinct : List Tick → Type 0
AllDistinct ticks = All (λ t. Distinct (to_check t.state)) ticks

abbrev start : List Tick → Checking
start ticks = record { counts = (watch ticks).0; active_ids = []; kills = [] }
