-- ===== src/Lifecycle/Ports.antt =====
-- `check_ports_available` of src/supervisor/lifecycle.rs, and the port of the readiness check that
-- `run_once` derives from it. Ports are `u16`, offsets are `u32`. The bind probe and the lookup of
-- the owner of a port ask the operating system and are parameters; what the probe finds may change
-- from one offset to the next.
pub mod Resolved
use pitchfork.Prelude.{
  ℕ, zero, suc, ◌+◌, ◌-◌, ◌%◌, ◌==◌, ltb, leb, if◌then◌else◌, Bool, true, false, not, ◌&&◌, ◌||◌,
  Option, none, some, List, [], ◌∷◌, map, any, is_empty, Result, ok, err,
}
use pitchfork.Text.{Text}
use pitchfork.Config.{PortConfig, PortBump}
use pitchfork.Daemon.{RunOptions, and_then, unwrap_or, or_else}
use pitchfork.Map.{is_some}

abbrev pub u16_mod : ℕ
u16_mod = 65536

abbrev pub u32_mod : ℕ
u32_mod = 4294967296

pub data PortError : Type 0 where
  in_use : (port : ℕ) (process : Text) (pid : ℕ) → PortError
  no_available_port : (start_port attempts : ℕ) → PortError

-- `p.wrapping_add(bump_offset as u16)`
abbrev pub wrapping_add : ℕ → ℕ → ℕ
wrapping_add p offset = (p + offset % u16_mod) % u16_mod

unfoldable pub candidate_ports : List ℕ → ℕ → List ℕ
candidate_ports [] offset = []
candidate_ports (p ∷ ports) offset = wrapping_add p offset ∷ candidate_ports ports offset

-- The first port that is taken; port 0 asks for any port and is not probed.
unfoldable pub conflicting_port : (ℕ → Bool) → List ℕ → Option ℕ
conflicting_port is_port_in_use [] = none
conflicting_port is_port_in_use (p ∷ ports) =
    let rest = conflicting_port is_port_in_use ports in
    if p == 0 then rest else (if is_port_in_use p then some p else rest)

unfoldable pub contains_port : ℕ → List ℕ → Bool
contains_port p [] = false
contains_port p (q ∷ ports) = p == q || contains_port p ports

-- The candidates have wrapped around to 0.
unfoldable pub wrapped : (expected candidates : List ℕ) → Bool
unfolding contains_port
wrapped expected candidates = contains_port 0 candidates && not (contains_port 0 expected)

abbrev pub first_port : List ℕ → ℕ
first_port [] = 0
first_port (p ∷ ports) = p

module _ (is_port_in_use : (offset port : ℕ) → Bool) (identify_port_owner : ℕ → ℕ × Text)
    (expected : List ℕ) (auto_bump : Bool) where
  abbrev conflict : ℕ → PortError
  conflict port = in_use port (identify_port_owner port).1 (identify_port_owner port).0

  -- The offsets from `offset` on, of which there are `rounds`, and what the loop ends with.
  unfoldable pub bump_from :
      (rounds offset : ℕ) → (exhausted : PortError) → Result PortError (List ℕ)
  unfolding candidate_ports conflicting_port wrapped
  bump_from zero offset exhausted = err exhausted
  bump_from (suc rounds) offset exhausted =
      let next = bump_from rounds (offset + 1) exhausted in
      let candidates = candidate_ports expected offset in
      elim (conflicting_port (is_port_in_use offset) candidates) [
        | none ↦
            (if wrapped expected candidates
              then err (no_available_port (first_port expected) (offset + 1))
              else ok candidates)
        | some port ↦ (if offset == 0 && not auto_bump then err (conflict port) else next)
      ]

  -- The sums of attempts are those of a release build.
  unfoldable pub check_ports_available : (max_attempts : ℕ) → Result PortError (List ℕ)
  unfolding bump_from
  check_ports_available max_attempts =
      if is_empty expected
      then ok []
      else bump_from (max_attempts + 1) 0
          (no_available_port (first_port expected) ((max_attempts + 1) % u32_mod))
