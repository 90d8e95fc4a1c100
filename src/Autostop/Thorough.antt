-- ===== src/Autostop/Thorough.antt =====
-- `leave_dir` of src/supervisor/autostop.rs: what becomes of each daemon and of earlier deadlines.
use pitchfork.Prelude.{
  ℕ, ◌+◌, ◌≡◌, refl, sym, ◌∙◌, ap, subst, Bool, true, Option, some, List, [], ◌∷◌, arith,
  Bool-cases, Option-cases, inl, inr, if◌then◌else◌, ◌==◌, Result, ok, Result-cases,
}
use pitchfork.DaemonId.{DaemonId, id_eq_iff}
use pitchfork.Config.{FilePath, Duration}
use pitchfork.Daemon.{Daemon}
use pitchfork.Map.{get, is_some, id_key}
use pitchfork.Map.Laws.{get-insert}
use pitchfork.Deps.{elem}
use pitchfork.State.{StateFile}
use pitchfork.State.Access.{active_daemons, get_active_directories}
use pitchfork.Autostop.{Supervisor, is_left, schedule, autostop, leave_one, leave_all, leave_dir}
use pitchfork.Autostop.Leave.{
  Some, IsLeftBehind, IsLeftBehind-iff, autostop-stops, autostop-pending,
}

-- The daemon is stopped, or has a deadline if there is a delay.
abbrev pub is_handled : Duration → DaemonId → Supervisor → Bool
is_handled delay x t = if delay == 0 then elem x t.stops else is_some (get x t.pending_autostops)

-- Stops are not taken back and deadlines not moved.
pub record IsLater (s t : Supervisor) : Type 0 where
  pub stops : (x : DaemonId) → elem x s.stops ≡ true → elem x t.stops ≡ true
  pub deadlines :
      (x : DaemonId) (at : ℕ)
      → get x s.pending_autostops ≡ some at
      → get x t.pending_autostops ≡ some at

IsLater-refl : (s : Supervisor) → IsLater s s
IsLater-refl s = record { stops = λ x m. m; deadlines = λ x at e. e }

IsLater-trans : (s t u : Supervisor) → IsLater s t → IsLater t u → IsLater s u
IsLater-trans s t u p q = record {
  stops = λ x m. q.stops x (p.stops x m);
  deadlines = λ x at e. q.deadlines x at (p.deadlines x at e);
}

IsLater-is_handled :
    (delay : Duration) (x : DaemonId) (s t : Supervisor)
    → IsLater s t
    → is_handled delay x s ≡ true
    → is_handled delay x t ≡ true
IsLater-is_handled delay x s t p h = elim (Bool-cases (delay == 0)) [
  | inl at_once ↦ rw at_once (p.stops x (rw at_once at h))
  | inr later ↦ elim (Option-cases (get x s.pending_autostops)) [
    | inl e ↦ ground (arith, later, e, h)
    | inr (at, e) ↦ rw later (ap is_some (p.deadlines x at e))
  ]
]

schedule-IsLater : (id : DaemonId) (at : ℕ) (s : Supervisor) → IsLater s (schedule id at s)
schedule-IsLater id at s = elim (Bool-cases (is_some (get id s.pending_autostops))) [
  | inl there ↦ rw there (IsLater-refl s)
  | inr absent ↦ rw absent (record {
    stops = λ x m. m;
    deadlines =
        λ x d e. ground (arith, e, absent, get-insert id x at s.pending_autostops, id_eq_iff id x);
  })
]

schedule-is_some :
    (id : DaemonId) (at : ℕ) (s : Supervisor)
    → is_some (get id (schedule id at s).pending_autostops) ≡ true
schedule-is_some id at s = elim (Bool-cases (is_some (get id s.pending_autostops))) [
  | inl there ↦ rw there there
  | inr absent ↦ ground (arith, absent, get-insert id id at s.pending_autostops, id_eq_iff id id)
]

module _ {E : Type 0} (canonicalize : FilePath → Option FilePath)
    (hash_order : List FilePath → List FilePath)
    (stop : DaemonId → StateFile → StateFile × Result E (Unit {0})) where
  autostop-IsLater :
      (id : DaemonId) (s : Supervisor) → IsLater s (autostop canonicalize hash_order stop id s).0
  unfolding elem
  autostop-IsLater id s = record {
    stops = λ x m.
        subst (λ l. elem x l ≡ true) (sym (autostop-stops canonicalize hash_order stop id s))
          (ground (arith, m));
    deadlines =
        λ x at e. ap (λ m. get x m) (autostop-pending canonicalize hash_order stop id s) ∙ e;
  }

  module _ (dir : FilePath) (active_dirs : List FilePath) (delay : Duration) (now : ℕ) where
    abbrev one : Daemon → Supervisor → Supervisor × Result E (Unit {0})
    one d s = leave_one canonicalize hash_order stop dir active_dirs delay now d s

    abbrev all_of : List Daemon → Supervisor → Supervisor × Result E (Unit {0})
    all_of ds s = leave_all canonicalize hash_order stop dir active_dirs delay now ds s

    leave_one-IsLater : (d : Daemon) (s : Supervisor) → IsLater s (one d s).0
    unfolding leave_one
    leave_one-IsLater d s = elim (Bool-cases (is_left canonicalize dir active_dirs d)) [
      | inr kept ↦ rw kept (IsLater-refl s)
      | inl left ↦ elim (Bool-cases (delay == 0)) [
        | inr later ↦ rw (left, later) (schedule-IsLater d.id (now + delay) s)
        | inl at_once ↦ rw (left, at_once) (autostop-IsLater d.id s)
      ]
    ]

    leave_one-is_handled :
        (d : Daemon) (s : Supervisor)
        → is_left canonicalize dir active_dirs d ≡ true
        → is_handled delay d.id (one d s).0 ≡ true
    unfolding leave_one elem
    leave_one-is_handled d s left = elim (Bool-cases (delay == 0)) [
      | inr later ↦ rw (left, later) (schedule-is_some d.id (now + delay) s)
      | inl at_once ↦
          rw (left, at_once)
            (subst (λ l. elem d.id l ≡ true)
              (sym (autostop-stops canonicalize hash_order stop d.id s))
              (rw ((id_eq_iff d.id d.id).1 refl) refl))
    ]

    leave_all-IsLater : (ds : List Daemon) (s : Supervisor) → IsLater s (all_of ds s).0
    unfolding leave_all
    leave_all-IsLater [] s = IsLater-refl s
    leave_all-IsLater (d ∷ ds) s = elim (Result-cases (one d s).1) [
      | inl (_, e) ↦
          rw (e, leave_all)
            (IsLater-trans s (one d s).0 _ (leave_one-IsLater d s)
              (leave_all-IsLater ds (one d s).0))
      | inr (failure, e) ↦ rw (e, leave_all) (leave_one-IsLater d s)
    ]

    leave_all-is_handled :
        (ds : List Daemon) (s : Supervisor) (x : DaemonId)
        → (all_of ds s).1 ≡ ok tt
        → Some (IsLeftBehind canonicalize dir active_dirs delay now x) ds
        → is_handled delay x (all_of ds s).0 ≡ true
    unfolding leave_all
    leave_all-is_handled [] s x h m = absurd m
    leave_all-is_handled (d ∷ ds) s x h m = elim (Result-cases (one d s).1) [
      | inl (_, e) ↦
          let rest : (all_of ds (one d s).0).1 ≡ ok tt = rw (e, leave_all) at h in
          elim m [
            | inl reason ↦
                let (same, left) =
                  (IsLeftBehind-iff canonicalize dir active_dirs delay now x d).0 reason in
                rw (e, leave_all)
                  (IsLater-is_handled delay x (one d s).0 _ (leave_all-IsLater ds (one d s).0) (
                    subst (λ y. is_handled delay y (one d s).0 ≡ true) same
                      (leave_one-is_handled d s left)))
            | inr behind ↦ rw (e, leave_all) (leave_all-is_handled ds (one d s).0 x rest behind)
          ]
      | inr (failure, e) ↦ let failed = rw (e, leave_all) at h in cc
    ]

  -- Leaving a directory takes no stop back and moves no deadline. If no stop fails, then each active
  -- daemon that stops by itself and whose directory is in the one that is left, with no active
  -- directory in it, is stopped or, with a delay, has a deadline.
  leave_dir-is_handled :
      (dir : FilePath) (delay : Duration) (now : ℕ) (s : Supervisor) (x : DaemonId)
      → (leave_dir canonicalize hash_order stop dir delay now s).1 ≡ ok tt
      → Some
          (IsLeftBehind canonicalize dir (get_active_directories hash_order s.state) delay now x)
          (active_daemons s.state)
      → IsLater s (leave_dir canonicalize hash_order stop dir delay now s).0
        × (is_handled delay x (leave_dir canonicalize hash_order stop dir delay now s).0 ≡ true)
  unfolding leave_dir
  leave_dir-is_handled dir delay now s x h m = (
    leave_all-IsLater dir (get_active_directories hash_order s.state) delay now
        (active_daemons s.state) s,
    leave_all-is_handled dir (get_active_directories hash_order s.state) delay now
        (active_daemons s.state) s x h m,
  )
