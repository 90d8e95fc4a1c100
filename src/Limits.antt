-- ===== src/Limits.antt =====
-- The resource limits of src/supervisor/watchers.rs: `check_resource_limits`. What a process uses is
-- measured by a library: a parameter, as is what other tasks do to the state in the meantime.
pub mod Streak
pub mod Kills
mod Examples
use pitchfork.Prelude.{
  zero, suc, ℕ, ◌+◌, ◌-◌, ◌%◌, ◌^◌, ltb, leb, Bool, true, false, not, ◌&&◌, ◌||◌, Option, none,
  some, List, [], ◌∷◌, if◌then◌else◌, ℤ, pos, negsuc, leb_ℤ, any, keep, is_empty,
}
use pitchfork.DaemonId.{DaemonId, id_eq, pitchfork_id}
use pitchfork.Config.{StopConfig, CpuLimit, MemoryLimit}
use pitchfork.Daemon.{Daemon, unwrap_or}
use pitchfork.Deps.{elem}
use pitchfork.Map.{Map, get, insert, remove, retain, values, is_some, id_key}
use pitchfork.State.{StateFile}
use pitchfork.State.Access.{get_daemon}
use pitchfork.Autostop.{is_running}
use pitchfork.Lifecycle.Stop.{default_stop}

-- Memory in bytes, and the bit pattern of an `f32`.
pub record Stats : Type 0 where
  pub memory_bytes : ℕ
  pub cpu_percent : ℕ

-- The order of two `f32` values that are numbers: by sign and magnitude.
abbrev pub is_nan : ℕ → Bool
is_nan bits = ltb 2139095040 (bits % 2 ^ 31)

abbrev negated : ℕ → ℤ
negated zero = pos 0
negated (suc n) = negsuc n

abbrev pub ordinal : ℕ → ℤ
ordinal bits = if ltb bits (2 ^ 31) then pos bits else negated (bits - 2 ^ 31)

unfoldable pub gt_f32 : ℕ → ℕ → Bool
gt_f32 a b = not (is_nan a) && not (is_nan b) && not (leb_ℤ (ordinal a) (ordinal b))

-- `settings().supervisor.cpu_violation_threshold.max(1) as u32`
unfoldable pub threshold_of : ℤ → ℕ
threshold_of (pos zero) = 1
threshold_of (pos (suc n)) = suc n % 2 ^ 32
threshold_of (negsuc n) = 1

abbrev pub has_limit : Daemon → Bool
has_limit d = not (id_eq d.id pitchfork_id) && (is_some d.memory_limit || is_some d.cpu_limit)

unfoldable pub has_any_limits : StateFile → Bool
unfolding values
has_any_limits s = any has_limit (values s.daemons)

abbrev pub is_checked : Daemon → Bool
is_checked d =
    not (id_eq d.id pitchfork_id)
    && is_some d.pid
    && is_running d.status
    && (is_some d.memory_limit || is_some d.cpu_limit)

unfoldable pub to_check : StateFile → List Daemon
unfolding values
to_check s = keep is_checked (values s.daemons)

unfoldable pub over_memory : Daemon → Stats → Bool
over_memory d stats = elim d.memory_limit [
  | none ↦ false
  | some limit ↦ ltb limit.bytes stats.memory_bytes
]

-- The arguments of `kill_process_group_async`, and the daemon.
pub record Kill : Type 0 where
  pub id : DaemonId
  pub pid : ℕ
  pub stop : StopConfig

-- The counts of violations, `active_ids`, and the processes that are killed, the last one first.
pub record Checking : Type 0 where
  pub counts : Map DaemonId ℕ
  pub active_ids : List DaemonId
  pub kills : List Kill

abbrev pub count : DaemonId → Map DaemonId ℕ → ℕ
count id counts = unwrap_or (get id counts) 0

module _ (stats_of : ℕ → Option Stats) (later : DaemonId → StateFile) (threshold : ℕ) where
  unfoldable pub stop_for_resource_violation : DaemonId → ℕ → Kill
  stop_for_resource_violation id pid = record {
    id = id;
    pid = pid;
    stop = elim (get_daemon id (later id)) [
      | none ↦ default_stop
      | some d ↦ unwrap_or d.stop_signal default_stop
    ];
  }

  abbrev pub kill_one : DaemonId → ℕ → Checking → Checking
  kill_one id pid c = record c {
    counts = remove id c.counts;
    kills = stop_for_resource_violation id pid ∷ c.kills;
  }

  -- One more sample above the limit.
  unfoldable pub strike : DaemonId → ℕ → Checking → Checking
  strike id pid c =
      let n = (count id c.counts + 1) % 2 ^ 32 in
      if leb threshold n then kill_one id pid c else record c { counts = insert id n c.counts }

  unfoldable pub check_cpu : DaemonId → Option CpuLimit → ℕ → Stats → Checking → Checking
  unfolding strike gt_f32
  check_cpu id none pid stats c = c
  check_cpu id (some limit) pid stats c =
      if gt_f32 stats.cpu_percent limit.bits
      then strike id pid c
      else record c { counts = remove id c.counts }

  unfoldable pub check_stats : Daemon → ℕ → Stats → Checking → Checking
  unfolding check_cpu over_memory
  check_stats d pid stats c =
      if over_memory d stats then kill_one d.id pid c else check_cpu d.id d.cpu_limit pid stats c

  -- What is done with the statistics of a process, if there are any.
  unfoldable pub check_measured : Daemon → ℕ → Option Stats → Checking → Checking
  unfolding check_stats
  check_measured d pid none c = c
  check_measured d pid (some stats) c =
      check_stats d pid stats (record c { active_ids = d.id ∷ c.active_ids })

  unfoldable pub check_pid : Daemon → Option ℕ → Checking → Checking
  unfolding check_measured
  check_pid d none c = c
  check_pid d (some pid) c = check_measured d pid (stats_of pid) c

  unfoldable pub check_each : List Daemon → Checking → Checking
  unfolding check_pid
  check_each [] c = c
  check_each (d ∷ ds) c = check_each ds (check_pid d d.pid c)

  unfoldable pub check_resource_limits : StateFile → Map DaemonId ℕ → Map DaemonId ℕ × List Kill
  unfolding check_each has_any_limits to_check
  check_resource_limits s counts =
      let c = check_each (to_check s) (record { counts = counts; active_ids = []; kills = [] }) in
      if not (has_any_limits s)
      then (counts, [])
      else (if is_empty (to_check s)
          then (counts, [])
          else (retain (λ id n. elem id c.active_ids) c.counts, c.kills))

-- A round of `interval_watch`: the state, what is measured, the state when a process is killed, and
-- the setting.
pub record Tick : Type 0 where
  pub state : StateFile
  pub stats_of : ℕ → Option Stats
  pub later : DaemonId → StateFile
  pub cpu_violation_threshold : ℤ

-- The counts and the kills of the last round, which stands first.
unfoldable pub watch : List Tick → Map DaemonId ℕ × List Kill
unfolding check_resource_limits threshold_of
watch [] = ([], [])
watch (t ∷ earlier) =
    check_resource_limits t.stats_of t.later (threshold_of t.cpu_violation_threshold) t.state
      (watch earlier).0
