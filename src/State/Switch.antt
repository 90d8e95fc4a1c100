-- ===== src/State/Switch.antt =====
-- `enable`, `disable` and `clean` of src/supervisor/state.rs.
use pitchfork.Prelude.{
  ◌≡◌, ◌↔◌, refl, sym, ◌∙◌, ap, Bool, true, false, not, ◌&&◌, Option, none, some, [], ◌∷◌, arith,
  Bool-cases, inl, inr, ok, is_ok, keep, All, subst,
}
use pitchfork.DaemonId.{DaemonId, id_eq, id_eq_iff, pitchfork_id}
use pitchfork.Config.{Daemons}
use pitchfork.Daemon.{Daemon}
use pitchfork.Map.{Map, get, insert, remove, retain, values, id_key, is_some}
use pitchfork.Map.Laws.{get-insert, remove-insert}
use pitchfork.State.{StateFile, mark_dirty, enable_daemon, disable_daemon, retain_daemons}
use pitchfork.State.Access.{switch, enable, disable, active_daemons, clean, is_known}

abbrev pub is_disabled : DaemonId → StateFile → Bool
is_disabled id s = is_some (get id s.disabled)

switched :
    (config : Daemons) (id : DaemonId) (s t : StateFile) (changed : Bool)
    → disable (some config) id s ≡ ok (t, changed)
    → (is_known id config s ≡ true) × ((t, changed) ≡ disable_daemon id s)
unfolding disable switch
switched config id s t changed e = elim (Bool-cases (is_known id config s)) [
  | inl known ↦ (known, ground (arith, known))
  | inr unknown ↦ ground (arith, unknown)
]

-- A daemon that is disabled while it was enabled is reported as newly disabled; enabling it then
-- succeeds, is reported as a change as well, and gives back the disabled daemons and the daemons of
-- before.
enable-disable :
    (config : Daemons) (id : DaemonId) (s t : StateFile) (changed : Bool)
    → is_disabled id s ≡ false
    → disable (some config) id s ≡ ok (t, changed)
    → (changed ≡ true)
      × (is_disabled id t ≡ true)
      × ((u : StateFile) × (enable (some config) id t ≡ ok (u, true))
          × (u.disabled ≡ s.disabled)
          × (u.daemons ≡ s.daemons))
enable-disable config id s t changed h e =
    let (known, same) = switched config id s t changed e in
    let here = same ∙ newly id s h in
    let at : t ≡ disabled_state id s = ap (λ r. r.0) here in
    let known_still : is_known id config t ≡ true = ap (λ v. is_known id config v) at ∙ known in
    let found : get id t.disabled ≡ some tt = ap (λ v. get id v.disabled) at ∙ added id s in
    (
      ap (λ r. r.1) here,
      ap is_some found,
      (
        record t { disabled = remove id t.disabled; dirty = true },
        enabled config id t known_still (ap is_some found),
        ap (λ v. remove id v.disabled) at ∙ remove-insert id tt s.disabled (absent h),
        ap (λ v. v.daemons) at,
      ),
    )
  where
    disabled_state : DaemonId → StateFile → StateFile
    disabled_state id s = record s { disabled = insert id tt s.disabled; dirty = true }

    newly :
        (id : DaemonId) (s : StateFile)
        → is_disabled id s ≡ false
        → disable_daemon id s ≡ (disabled_state id s, true)
    newly id s h = unfold disable_daemon mark_dirty in ground (arith, h)

    added : (id : DaemonId) (s : StateFile) → get id (insert id tt s.disabled) ≡ some tt
    added id s = get-insert id id tt s.disabled ∙ rw ((id_eq_iff id id).1 refl) refl

    absent : is_disabled id s ≡ false → get id s.disabled ≡ none
    absent h = ground (arith, h)

    enabled :
        (config : Daemons) (id : DaemonId) (t : StateFile)
        → is_known id config t ≡ true
        → is_disabled id t ≡ true
        → enable (some config) id t
          ≡ ok (record t { disabled = remove id t.disabled; dirty = true }, true)
    enabled config id t known h =
        unfold enable switch enable_daemon mark_dirty in ground (arith, known, h)

-- Disabling a daemon succeeds exactly if the configuration can be read and the state or the
-- configuration has the daemon.
disable_iff :
    (config : Option Daemons) (id : DaemonId) (s : StateFile)
    → (is_ok (disable config id s) ≡ true)
      ↔ ((pt : Daemons) × (config ≡ some pt) × (is_known id pt s ≡ true))
unfolding disable switch
disable_iff none id s = (λ e. cc, λ (pt, e, k). cc)
disable_iff (some pt) id s = (λ e. (pt, refl, ground arith), λ (other, e, k). ground (arith, e, k))

keep-retain :
    (p : Daemon → Bool) (q : DaemonId → Daemon → Bool) (m : Map DaemonId Daemon)
    → ((id : DaemonId) (d : Daemon) → p d ≡ true → q id d ≡ true)
    → keep p (values (retain q m)) ≡ keep p (values m)
unfolding values retain
keep-retain p q [] h = refl
keep-retain p q ((id, d) ∷ m) h = ground (arith, keep-retain p q m h, h id d)

clean-daemons : (s : StateFile) → (clean s).daemons ≡ retain (λ id d. is_some d.pid) s.daemons
unfolding clean retain_daemons mark_dirty
clean-daemons s = ground arith

All-retain :
    (q : DaemonId → Daemon → Bool) (m : Map DaemonId Daemon)
    → All (λ e. q e.0 e.1 ≡ true) (retain q m)
unfolding retain
All-retain q [] = tt
All-retain q ((id, d) ∷ m) = elim (Bool-cases (q id d)) [
  | inl kept ↦ rw kept (kept, All-retain q m)
  | inr gone ↦ rw gone (All-retain q m)
]

-- Cleaning leaves only daemons with a process, and every daemon that was active.
clean_lem :
    (s : StateFile)
    → All (λ e. is_some e.1.pid ≡ true) ((clean s).daemons)
      × (active_daemons (clean s) ≡ active_daemons s)
unfolding active_daemons
clean_lem s = (
  subst (All (λ e. is_some e.1.pid ≡ true)) (sym (clean-daemons s))
      (All-retain (λ id d. is_some d.pid) s.daemons),
  ap (λ m. keep (λ d. is_some d.pid && not (id_eq d.id pitchfork_id)) (values m)) (clean-daemons s)
      ∙ keep-retain (λ d. is_some d.pid && not (id_eq d.id pitchfork_id)) (λ id d. is_some d.pid)
          s.daemons (λ id d h. ground arith),
)
