-- ===== src/Examples/Breakers.antt =====
-- A run of the circuit breaker of a backend, of threshold 2 and cooldown 10.
use mcpdoll.Base.{arith, ◌≤◌, false, [], ◌∷◌}
use mcpdoll.Backends.Breaker.{open_state}
use mcpdoll.Backends.Breaker as BackendBreaker
use mcpdoll.Backends.Breaker.Recovery.{admit-le-one}

abbrev tripped : BackendBreaker.Breaker
tripped = record {
  threshold = 2;
  cooldown = 10;
  consecutive = 2;
  state = open_state;
  opened_at = 5;
  probe_in_flight = false;
}

admit-le-one_example : (BackendBreaker.admit (15 ∷ 16 ∷ 40 ∷ []) tripped).1 ≤ 1
admit-le-one_example = admit-le-one (15 ∷ 16 ∷ 40 ∷ []) tripped (ground arith)
