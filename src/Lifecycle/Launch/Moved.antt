-- ===== src/Lifecycle/Launch/Moved.antt =====
-- The port of the readiness check that `run_once` of src/supervisor/lifecycle.rs makes.
use pitchfork.Prelude.{ℕ, ◌+◌, ◌<◌, ◌≡◌, true, List, [], ◌∷◌, arith, All}
use pitchfork.Lifecycle.Ports.{u16_mod, candidate_ports, contains_port, first_port}
use pitchfork.Lifecycle.Launch.{moved_port}

contains_port-candidate_ports :
    (port offset : ℕ) (expected : List ℕ)
    → All (λ p. p + offset < u16_mod) expected
    → contains_port port expected ≡ true
    → contains_port (port + offset) (candidate_ports expected offset) ≡ true
unfolding contains_port candidate_ports
contains_port-candidate_ports port offset [] small h = cc
contains_port-candidate_ports port offset (p ∷ ports) small h =
    ground (arith, contains_port-candidate_ports port offset ports)

first_port-candidate_ports :
    (port offset : ℕ) (expected : List ℕ)
    → All (λ p. p + offset < u16_mod) expected
    → contains_port port expected ≡ true
    → first_port (candidate_ports expected offset) ≡ first_port expected + offset
unfolding contains_port candidate_ports
first_port-candidate_ports port offset [] small h = cc
first_port-candidate_ports port offset (p ∷ ports) small h = ground arith

contains_port-bound :
    (port offset : ℕ) (expected : List ℕ)
    → All (λ p. p + offset < u16_mod) expected
    → contains_port port expected ≡ true
    → port + offset < u16_mod
unfolding contains_port
contains_port-bound port offset [] small h = cc
contains_port-bound port offset (p ∷ ports) small h =
    ground (arith, contains_port-bound port offset ports)

-- If the port of the readiness check is one of the expected ports, and these are moved without
-- wrapping around, the check is made on the same one of the ports that the daemon gets.
moved_port-candidate_ports :
    (port offset : ℕ) (expected : List ℕ)
    → All (λ p. p + offset < u16_mod) expected
    → contains_port port expected ≡ true
    → let resolved = candidate_ports expected offset in
      (moved_port port expected resolved ≡ port + offset)
      × (contains_port (moved_port port expected resolved) resolved ≡ true)
unfolding moved_port
moved_port-candidate_ports port offset expected small h =
    let first = first_port-candidate_ports port offset expected small h in
    let found : contains_port (port + offset) (candidate_ports expected offset) ≡ true =
      contains_port-candidate_ports port offset expected small h in
    let bound = contains_port-bound port offset expected small h in
    let moved : moved_port port expected (candidate_ports expected offset) ≡ port + offset =
      ground (arith, first, bound, h) in
    (moved, rw moved found)
