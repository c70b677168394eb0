-- ===== src/Client/Breaker/Runs.antt =====
-- Runs of the circuit breaker, and the theorems at inputs. The threshold is a half.
use kama_rpc_go.Base.{ℕ, ◌*◌, ◌≡◌, refl, arith, leb, true, false, List, [], ◌∷◌}
use kama_rpc_go.Client.Breaker.{
  open_state, half_open, Config, CircuitBreaker, new_circuit_breaker, Event, asks, succeeds, fails,
  step, run,
}
use kama_rpc_go.Client.Breaker.Invariant.{IsBreaker, reachable-IsBreaker}
use kama_rpc_go.Client.Breaker.Transitions.{Edge, step-Edge}

abbrev half : Config
half = record { window_size = 2; reaches = λ f t. leb t (f * 2); open_timeout = 10 }

abbrev tripping : List Event
tripping = succeeds 1 ∷ fails 2 ∷ []

abbrev opened : CircuitBreaker
opened = record {
  state = open_state;
  failure_count = 0;
  success_count = 0;
  last_state_change = 2;
  half_open_probe = false;
}

abbrev probing : CircuitBreaker
probing = record {
  state = half_open;
  failure_count = 0;
  success_count = 0;
  last_state_change = 13;
  half_open_probe = true;
}

trips : run half (new_circuit_breaker 0) tripping ≡ opened
unfolding run step new_circuit_breaker
trips = refl

probes : run half opened (asks 12 ∷ asks 13 ∷ asks 14 ∷ []) ≡ probing
unfolding run step
probes = refl

probing-IsBreaker : IsBreaker half probing
probing-IsBreaker = ground arith

reachable-IsBreaker_example : IsBreaker half (run half (new_circuit_breaker 0) tripping)
reachable-IsBreaker_example = reachable-IsBreaker half 0 tripping

step-Edge_example : Edge half opened (asks 13) (step half opened (asks 13)).state
step-Edge_example = step-Edge half opened (asks 13)

abbrev later : List ℕ
later = 14 ∷ 100 ∷ []
