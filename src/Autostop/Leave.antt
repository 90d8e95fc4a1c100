-- ===== src/Autostop/Leave.antt =====
-- `leave_dir` of src/supervisor/autostop.rs: which daemons it stops or schedules.
use pitchfork.Prelude.{
  ℕ, ◌+◌, ◌≡◌, sym, ◌∙◌, ap, subst, true, Option, some, List, [], ◌∷◌, arith, Bool-cases, inl, inr,
  ◌⊎◌, ◌==◌, ==_iff, Result, Result-cases, any, ◌↔◌, Option-cases, false,
}
use pitchfork.DaemonId.{DaemonId, id_eq, id_eq_iff}
use pitchfork.Config.{FilePath, Duration}
use pitchfork.Daemon.{Daemon}
use pitchfork.Map.{get, is_some, id_key}
use pitchfork.Map.Laws.{get-insert}
use pitchfork.Deps.{elem}
use pitchfork.State.{StateFile}
use pitchfork.State.Access.{active_daemons, get_active_directories}
use pitchfork.Autostop.{
  Supervisor, is_left, is_within, schedule, autostop, leave_one, leave_all, leave_dir,
  add_notification,
}

-- Some element has the property.
abbrev pub Some {ℓ} : {A : Type ℓ} → (A → Type 0) → List A → Type 0
Some P [] = ⊥
Some P (x ∷ xs) = P x ⊎ Some P xs

module _ (canonicalize : FilePath → Option FilePath) (dir : FilePath) (active_dirs : List FilePath)
    (delay : Duration) (now : ℕ) where
  -- The daemon `d` is `x`, it stops by itself, and its directory is in the one that is left, without
  -- an active directory in it.
  abbrev pub IsLeftBehind : DaemonId → Daemon → Type 0
  IsLeftBehind x d =
      (d.id ≡ x)
      × (d.autostop ≡ true)
      × ((daemon_dir : FilePath) × (d.dir ≡ some daemon_dir)
          × (is_within canonicalize dir daemon_dir ≡ true)
          × (any (is_within canonicalize daemon_dir) active_dirs ≡ false))

  pub IsLeftBehind-iff :
      (x : DaemonId) (d : Daemon)
      → IsLeftBehind x d ↔ ((d.id ≡ x) × (is_left canonicalize dir active_dirs d ≡ true))
  unfolding is_left
  IsLeftBehind-iff x d = (
    λ (same, by_itself, (daemon_dir, has, within, free)).
        (same, ground (arith, by_itself, has, within, free)),
    λ (same, left). elim (Option-cases d.dir) [
      | inl e ↦ ground (arith, e, left)
      | inr (daemon_dir, e) ↦ (
        same,
        ground (arith, e, left),
        (daemon_dir, e, ground (arith, e, left), ground (arith, e, left)),
      )
    ],
  )

  -- What is new among the stops and the deadlines has its reason in one of the daemons.
  pub record IsJustified (ds : List Daemon) (s t : Supervisor) : Type 0 where
    pub stops :
        (x : DaemonId)
        → elem x t.stops ≡ true
        → (elem x s.stops ≡ true) ⊎ (Some (IsLeftBehind x) ds × (delay ≡ 0))
    pub deadlines :
        (x : DaemonId) (at : ℕ)
        → get x t.pending_autostops ≡ some at
        → (get x s.pending_autostops ≡ some at) ⊎ (Some (IsLeftBehind x) ds × (at ≡ now + delay))

  nothing_new : (ds : List Daemon) (s : Supervisor) → IsJustified ds s s
  nothing_new ds s = record { stops = λ x m. inl m; deadlines = λ x at e. inl e }

  -- The next daemon did its part, the rest what follows.
  chained :
      (d : Daemon) (ds : List Daemon) (s t u : Supervisor)
      → IsJustified (d ∷ []) s t
      → IsJustified ds t u
      → IsJustified (d ∷ ds) s u
  chained d ds s t u p q = record {
    stops = λ x m. elim (q.stops x m) [
      | inr (h, z) ↦ inr (inr h, z)
      | inl m' ↦ elim (p.stops x m') [
        | inl old ↦ inl old
        | inr (inl h, z) ↦ inr (inl h, z)
        | inr (inr h, z) ↦ absurd h
      ]
    ];
    deadlines = λ x at e. elim (q.deadlines x at e) [
      | inr (h, z) ↦ inr (inr h, z)
      | inl m' ↦ elim (p.deadlines x at m') [
        | inl old ↦ inl old
        | inr (inl h, z) ↦ inr (inl h, z)
        | inr (inr h, z) ↦ absurd h
      ]
    ];
  }

  first_only :
      (d : Daemon) (ds : List Daemon) (s t : Supervisor)
      → IsJustified (d ∷ []) s t
      → IsJustified (d ∷ ds) s t
  first_only d ds s t p = chained d ds s t t p (nothing_new ds t)

  stopped_one :
      (d : Daemon) (s t : Supervisor)
      → is_left canonicalize dir active_dirs d ≡ true
      → delay ≡ 0
      → t.stops ≡ d.id ∷ s.stops
      → t.pending_autostops ≡ s.pending_autostops
      → IsJustified (d ∷ []) s t
  unfolding elem
  stopped_one d s t left z e k = record {
    stops = λ x m.
        let m' : elem x (d.id ∷ s.stops) ≡ true = subst (λ l. elem x l ≡ true) e m in
        elim (Bool-cases (id_eq d.id x)) [
          | inl same ↦ inr (inl ((IsLeftBehind-iff x d).1 ((id_eq_iff d.id x).0 same, left)), z)
          | inr other ↦ inl (ground (arith, m', other))
        ];
    deadlines = λ x at g. inl (ap (λ m. get x m) (sym k) ∙ g);
  }

  scheduled_one :
      (d : Daemon) (s : Supervisor)
      → is_left canonicalize dir active_dirs d ≡ true
      → IsJustified (d ∷ []) s (schedule d.id (now + delay) s)
  scheduled_one d s left = elim (Bool-cases (is_some (get d.id s.pending_autostops))) [
    | inl there ↦ rw there (nothing_new (d ∷ []) s)
    | inr absent ↦ rw absent (record {
      stops = λ x m. inl m;
      deadlines = λ x at e. elim (Bool-cases (id_eq d.id x)) [
        | inl same ↦ inr (
          inl ((IsLeftBehind-iff x d).1 ((id_eq_iff d.id x).0 same, left)),
          ground (arith, same, e, get-insert d.id x (now + delay) s.pending_autostops),
        )
        | inr other ↦
            inl (ground (arith, other, e, get-insert d.id x (now + delay) s.pending_autostops))
      ];
    })
  ]

module _ {E : Type 0} (canonicalize : FilePath → Option FilePath)
    (hash_order : List FilePath → List FilePath)
    (stop : DaemonId → StateFile → StateFile × Result E (Unit {0})) where
  pub autostop-stops :
      (id : DaemonId) (s : Supervisor)
      → (autostop canonicalize hash_order stop id s).0.stops ≡ id ∷ s.stops
  unfolding autostop add_notification
  autostop-stops id s = elim (Result-cases (stop id s.state).1) [
    | inl (_, e) ↦ ground (arith, e)
    | inr (_, e) ↦ ground (arith, e)
  ]

  pub autostop-pending :
      (id : DaemonId) (s : Supervisor)
      → (autostop canonicalize hash_order stop id s).0.pending_autostops ≡ s.pending_autostops
  unfolding autostop add_notification
  autostop-pending id s = elim (Result-cases (stop id s.state).1) [
    | inl (_, e) ↦ ground (arith, e)
    | inr (_, e) ↦ ground (arith, e)
  ]

  module _ (dir : FilePath) (active_dirs : List FilePath) (delay : Duration) (now : ℕ) where
    leave_one-IsJustified :
        (d : Daemon) (s : Supervisor)
        → IsJustified canonicalize dir active_dirs delay now
            (d ∷ [])
            s
            (leave_one canonicalize hash_order stop dir active_dirs delay now d s).0
    unfolding leave_one
    leave_one-IsJustified d s = elim (Bool-cases (is_left canonicalize dir active_dirs d)) [
      | inr kept ↦ rw kept (nothing_new canonicalize dir active_dirs delay now (d ∷ []) s)
      | inl left ↦ elim (Bool-cases (delay == 0)) [
        | inr later ↦
            rw (left, later) (scheduled_one canonicalize dir active_dirs delay now d s left)
        | inl at_once ↦
            rw (left, at_once)
              (stopped_one canonicalize dir active_dirs delay now d s
                (autostop canonicalize hash_order stop d.id s).0 left ((==_iff delay 0).0 at_once)
                (autostop-stops d.id s) (autostop-pending d.id s))
      ]
    ]

    leave_all-IsJustified :
        (ds : List Daemon) (s : Supervisor)
        → IsJustified canonicalize dir active_dirs delay now ds s
            (leave_all canonicalize hash_order stop dir active_dirs delay now ds s).0
    unfolding leave_all
    leave_all-IsJustified [] s = nothing_new canonicalize dir active_dirs delay now [] s
    leave_all-IsJustified (d ∷ ds) s =
        let one = (leave_one canonicalize hash_order stop dir active_dirs delay now d s).0 in
        elim (Result-cases
          (leave_one canonicalize hash_order stop dir active_dirs delay now d s).1) [
            | inl (_, e) ↦
                rw (e, leave_all)
                  (chained canonicalize dir active_dirs delay now d ds s one _
                    (leave_one-IsJustified d s) (leave_all-IsJustified ds one))
            | inr (failure, e) ↦
                rw (e, leave_all)
                  (first_only canonicalize dir active_dirs delay now d ds s one
                    (leave_one-IsJustified d s))
          ]

  -- Whatever the order of a hash set and whatever `stop` does: leaving a directory stops at once, if
  -- there is no delay, or gives a deadline after the delay, otherwise, only to active daemons that stop
  -- by themselves and whose directory is in the one that is left, with no active directory in it.
  pub leave_dir-IsJustified :
      (dir : FilePath) (delay : Duration) (now : ℕ) (s : Supervisor)
      → IsJustified canonicalize dir
          (get_active_directories hash_order s.state)
          delay
          now
          (active_daemons s.state)
          s
          (leave_dir canonicalize hash_order stop dir delay now s).0
  unfolding leave_dir
  leave_dir-IsJustified dir delay now s =
      leave_all-IsJustified dir (get_active_directories hash_order s.state) delay now
        (active_daemons s.state) s
