-- ===== src/Lifecycle/Ports/Resolved.antt =====
-- What the ports are that `check_ports_available` of src/supervisor/lifecycle.rs returns.
use pitchfork.Prelude.{
  ℕ, zero, suc, ◌+◌, ◌-◌, ◌%◌, ◌≡◌, ◌≤◌, ◌<◌, refl, ap, ◌∙◌, subst, ◌==◌, Bool, true, false, not,
  ◌&&◌, none, some, List, [], ◌∷◌, arith, Result, ok, err, is_empty, Bool-cases, Option-cases, inl,
  inr, All, ◌⊎◌,
}
use native.Mathlib.Decide.{ℕ_discrete, dec_lt}
use pitchfork.Text.{Text}
use pitchfork.Lifecycle.Ports.{
  u16_mod, u32_mod, PortError, in_use, no_available_port, wrapping_add, candidate_ports,
  conflicting_port, contains_port, wrapped, first_port, bump_from, check_ports_available,
}

-- No port of these is taken but for port 0.
abbrev pub AllFree : (ℕ → Bool) → List ℕ → Type 0
AllFree is_port_in_use ports = All (λ p. (p ≡ 0) ⊎ (is_port_in_use p ≡ false)) ports

-- Some port of these is taken and is not port 0.
pub data HasTaken (is_port_in_use : ℕ → Bool) : List ℕ → Type 0 where
  here :
      (p : ℕ) (ports : List ℕ)
      → 0 < p
      → is_port_in_use p ≡ true
      → HasTaken is_port_in_use (p ∷ ports)
  there :
      (p : ℕ) {ports : List ℕ} → HasTaken is_port_in_use ports → HasTaken is_port_in_use (p ∷ ports)

pub conflicting_port-none :
    (is_port_in_use : ℕ → Bool) (ports : List ℕ)
    → conflicting_port is_port_in_use ports ≡ none
    → AllFree is_port_in_use ports
unfolding conflicting_port
conflicting_port-none is_port_in_use [] h = tt
conflicting_port-none is_port_in_use (p ∷ ports) h = elim (Bool-cases (p == 0)) [
  | inl zero_port ↦ (
    inl (ground arith),
    conflicting_port-none is_port_in_use ports (ground (arith, h, zero_port)),
  )
  | inr other ↦ elim (Bool-cases (is_port_in_use p)) [
    | inl taken ↦ absurd (ground (arith, h, other, taken))
    | inr free ↦
        (inr free, conflicting_port-none is_port_in_use ports (ground (arith, h, other, free)))
  ]
]

pub conflicting_port-some :
    (is_port_in_use : ℕ → Bool) (ports : List ℕ) {port : ℕ}
    → conflicting_port is_port_in_use ports ≡ some port
    → HasTaken is_port_in_use ports
      × (is_port_in_use port ≡ true)
      × (contains_port port ports ≡ true)
unfolding conflicting_port contains_port
conflicting_port-some is_port_in_use [] h = cc
conflicting_port-some is_port_in_use (p ∷ ports) {port} h = elim (Bool-cases (p == 0)) [
  | inl zero_port ↦
      let rest =
        conflicting_port-some is_port_in_use ports {port = port} (ground (arith, h, zero_port)) in
      (there p rest.0, rest.1, ground (arith, rest.2))
  | inr other ↦ elim (Bool-cases (is_port_in_use p)) [
    | inl taken ↦
        let same : p ≡ port = ground (arith, h, other, taken) in
        (
          here p ports (ground (arith, other)) taken,
          ground (arith, same, taken),
          ground (arith, same),
        )
    | inr free ↦
        let rest =
          conflicting_port-some is_port_in_use ports {port = port}
            (ground (arith, h, other, free)) in
        (there p rest.0, rest.1, ground (arith, rest.2))
  ]
]

no_candidates : (expected : List ℕ) → is_empty expected ≡ true → [] ≡ candidate_ports expected 0
unfolding candidate_ports
no_candidates [] h = refl
no_candidates (p ∷ ports) h = cc

no_port : (p : ℕ) → contains_port p [] ≡ false
unfolding contains_port
no_port p = refl

zero_port_free : (is_port_in_use : ℕ → Bool) (q : ℕ) → q ≡ 0 → HasTaken is_port_in_use (q ∷ []) → ⊥
zero_port_free is_port_in_use q z (here _ _ h u) = omega arith
zero_port_free is_port_in_use q z (there _ t) = elim t [ ]

module _ (is_port_in_use : (offset port : ℕ) → Bool) (expected : List ℕ) where
  -- The ports are the expected ones, all moved by the same offset; none of them is taken, and at each
  -- smaller offset one was. If no expected port is 0, none of them is.
  pub record IsBump (from upto : ℕ) (ports : List ℕ) : Type 0 where
    pub offset : ℕ
    pub least : from ≤ offset
    pub most : offset < upto
    pub moved : ports ≡ candidate_ports expected offset
    pub free : AllFree (is_port_in_use offset) ports
    pub earlier :
        (k : ℕ) → from ≤ k → k < offset → HasTaken (is_port_in_use k) (candidate_ports expected k)
    pub not_wrapped : contains_port 0 expected ≡ false → contains_port 0 ports ≡ false

  -- The error is that a port is taken and ports are not moved, or that no offset was found: one where
  -- the ports wrap around to 0 ends the search, and otherwise a port is taken at each.
  pub data Fails (auto_bump : Bool) (from upto : ℕ) (exhausted : PortError)
      : PortError → Type 0 where
    taken :
        (port pid : ℕ) (process : Text)
        → from ≡ 0
        → auto_bump ≡ false
        → is_port_in_use from port ≡ true
        → contains_port port (candidate_ports expected from) ≡ true
        → Fails auto_bump from upto exhausted (in_use port process pid)
    wrapped_around :
        (offset : ℕ)
        → from ≤ offset
        → offset < upto
        → contains_port 0 (candidate_ports expected offset) ≡ true
        → contains_port 0 expected ≡ false
        → Fails auto_bump from upto exhausted (no_available_port (first_port expected) (offset + 1))
    none_free :
        ((k : ℕ) → from ≤ k → k < upto → HasTaken (is_port_in_use k) (candidate_ports expected k))
        → Fails auto_bump from upto exhausted exhausted

  abbrev pub Outcome : Bool → ℕ → ℕ → PortError → Result PortError (List ℕ) → Type 0
  Outcome auto_bump from upto exhausted (ok ports) = IsBump from upto ports
  Outcome auto_bump from upto exhausted (err e) = Fails auto_bump from upto exhausted e

  wrapped-parts :
      (candidates : List ℕ)
      → wrapped expected candidates ≡ true
      → (contains_port 0 candidates ≡ true) × (contains_port 0 expected ≡ false)
  unfolding wrapped
  wrapped-parts candidates h = ground arith

  not_wrapped-parts :
      (candidates : List ℕ)
      → wrapped expected candidates ≡ false
      → contains_port 0 expected ≡ false
      → contains_port 0 candidates ≡ false
  unfolding wrapped
  not_wrapped-parts candidates h e = ground arith

  extend_taken :
      (from upto : ℕ)
      → HasTaken (is_port_in_use from) (candidate_ports expected from)
      → ((k : ℕ)
          → from + 1 ≤ k
          → k < upto
          → HasTaken (is_port_in_use k) (candidate_ports expected k))
      → (k : ℕ) → from ≤ k
      → k < upto
      → HasTaken (is_port_in_use k) (candidate_ports expected k)
  extend_taken from upto t later k l m = elim (ℕ_discrete k from) [
    | yes same ↦ rw same t
    | no other ↦ later k (grind arith) m
  ]

  widen_error :
      (auto_bump : Bool) (from upto : ℕ) (exhausted : PortError) {e : PortError}
      → HasTaken (is_port_in_use from) (candidate_ports expected from)
      → Fails auto_bump (from + 1) upto exhausted e
      → Fails auto_bump from upto exhausted e
  widen_error auto_bump from upto exhausted t (taken port pid process z a u c) =
      absurd (omega arith)
  widen_error auto_bump from upto exhausted t (wrapped_around offset l m c n) =
      wrapped_around offset (omega arith) m c n
  widen_error auto_bump from upto exhausted t (none_free later) =
      none_free (extend_taken from upto t later)

  widen :
      (auto_bump : Bool) (from upto : ℕ) (exhausted : PortError) (r : Result PortError (List ℕ))
      → HasTaken (is_port_in_use from) (candidate_ports expected from)
      → Outcome auto_bump (from + 1) upto exhausted r
      → Outcome auto_bump from upto exhausted r
  widen auto_bump from upto exhausted (ok ports) t b = record {
    offset = b.offset;
    least = omega arith;
    most = b.most;
    moved = b.moved;
    free = b.free;
    earlier = extend_taken from b.offset t b.earlier;
    not_wrapped = b.not_wrapped;
  }
  widen auto_bump from upto exhausted (err e) t f = widen_error auto_bump from upto exhausted t f

  pub bump_from-Outcome :
      (identify_port_owner : ℕ → ℕ × Text) (auto_bump : Bool) (rounds offset upto : ℕ)
      (exhausted : PortError)
      → upto ≡ offset + rounds
      → Outcome auto_bump offset upto exhausted
          (bump_from is_port_in_use identify_port_owner expected auto_bump rounds offset exhausted)
  unfolding bump_from
  bump_from-Outcome identify_port_owner auto_bump zero offset upto exhausted u =
      none_free (λ k l m. absurd (omega arith))
  bump_from-Outcome identify_port_owner auto_bump (suc rounds) offset upto exhausted u =
      elim (Option-cases
        (conflicting_port (is_port_in_use offset) (candidate_ports expected offset))) [
          | inl free ↦ elim (Bool-cases (wrapped expected (candidate_ports expected offset))) [
            | inl around ↦
                let both = wrapped-parts (candidate_ports expected offset) around in
                rw (free, bump_from)
                  (rw around (wrapped_around offset (omega arith) (omega arith) both.0 both.1))
            | inr within ↦
                rw (free, bump_from)
                  (rw within (record {
                    offset = offset;
                    least = omega arith;
                    most = omega arith;
                    moved = refl;
                    free = conflicting_port-none (is_port_in_use offset) _ free;
                    earlier = λ k l m. absurd (omega arith);
                    not_wrapped = not_wrapped-parts (candidate_ports expected offset) within;
                  }))
          ]
          | inr (port, conflict) ↦
              let found : HasTaken (is_port_in_use offset) (candidate_ports expected offset)
                  × (is_port_in_use offset port ≡ true)
                  × (contains_port port (candidate_ports expected offset) ≡ true) =
                conflicting_port-some (is_port_in_use offset) _ conflict in
              elim (Bool-cases (offset == 0 && not auto_bump)) [
                | inl refused ↦
                    rw (conflict, bump_from)
                      (rw refused (
                        taken port _ _ (ground (arith, refused)) (ground (arith, refused)) found.1
                          found.2))
                | inr moved ↦
                    rw (conflict, bump_from)
                      (rw moved (
                        widen auto_bump offset upto exhausted _ found.0 (
                          bump_from-Outcome identify_port_owner auto_bump rounds (offset + 1) upto
                            exhausted (omega arith))))
              ]
        ]

  -- `check_ports_available` returns the expected ports moved by the least offset, of those up to the
  -- maximum, at which none of them is taken, and none of them is 0 if none of the expected ones is; or
  -- the error that a port is taken, if ports are not to be moved; or that there are no ports, since
  -- one is taken at each offset, or they wrap around to 0 at one.
  pub check_ports_available-Outcome :
      (identify_port_owner : ℕ → ℕ × Text) (auto_bump : Bool) (max_attempts : ℕ)
      → Outcome auto_bump 0
          (max_attempts + 1)
          (no_available_port (first_port expected) ((max_attempts + 1) % u32_mod))
          (check_ports_available is_port_in_use identify_port_owner expected auto_bump max_attempts)
  unfolding check_ports_available
  check_ports_available-Outcome identify_port_owner auto_bump max_attempts =
      elim (Bool-cases (is_empty expected)) [
        | inl empty ↦ rw empty (record {
          offset = 0;
          least = omega arith;
          most = omega arith;
          moved = no_candidates expected empty;
          free = tt;
          earlier = λ k l m. absurd (omega arith);
          not_wrapped = λ h. no_port 0;
        })
        | inr some_ports ↦ rw some_ports (
            bump_from-Outcome identify_port_owner auto_bump (max_attempts + 1) 0 (max_attempts + 1)
              _ (omega arith))
      ]

-- At the offset at which a port wraps around to 0 the search for a single port has ended.
single_offset :
    (is_port_in_use : (offset port : ℕ) → Bool) (upto p : ℕ) (ports : List ℕ)
    → 0 < p
    → p < u16_mod
    → (b : IsBump is_port_in_use (p ∷ []) 0 upto ports) → p + b.offset < u16_mod
unfolding candidate_ports contains_port
single_offset is_port_in_use upto p ports h l b = elim (dec_lt (p + b.offset) u16_mod) [
  | yes below ↦ below
  | no above ↦
      let wrap : p + b.offset ≡ u16_mod → contains_port 0 ports ≡ true =
        λ around. ap (contains_port 0) b.moved ∙ ground (arith, around) in
      elim (ℕ_discrete (p + b.offset) u16_mod) [
        | yes around ↦ absurd (ground (arith, wrap around, b.not_wrapped (ground arith)))
        | no beyond ↦ absurd (
            zero_port_free (is_port_in_use (u16_mod - p)) (wrapping_add p (u16_mod - p))
              (omega arith) (b.earlier (u16_mod - p) (omega arith) (omega arith)))
      ]
]

-- A single port is moved up, within its range: it never wraps around.
pub check_ports_available_single :
    (is_port_in_use : (offset port : ℕ) → Bool) (identify_port_owner : ℕ → ℕ × Text)
    (auto_bump : Bool) (max_attempts p : ℕ) (ports : List ℕ)
    → 0 < p
    → p < u16_mod
    → check_ports_available is_port_in_use identify_port_owner (p ∷ []) auto_bump max_attempts
      ≡ ok ports
    → (q : ℕ) × (ports ≡ q ∷ []) × (p ≤ q) × (q ≤ p + max_attempts) × (q < u16_mod)
unfolding candidate_ports
check_ports_available_single is_port_in_use identify_port_owner auto_bump max_attempts p ports h l
      e =
    let b : IsBump is_port_in_use (p ∷ []) 0 (max_attempts + 1) ports =
      subst
        (Outcome is_port_in_use (p ∷ []) auto_bump 0 (max_attempts + 1)
          (no_available_port p ((max_attempts + 1) % u32_mod)))
        e
        (check_ports_available-Outcome is_port_in_use (p ∷ []) identify_port_owner auto_bump
          max_attempts) in
    let bound : p + b.offset < u16_mod =
      single_offset is_port_in_use (max_attempts + 1) p ports h l b in
    (wrapping_add p b.offset, b.moved, omega arith, omega (arith, b.most), omega arith)
