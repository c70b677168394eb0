-- ===== src/Client/Breaker/Invariant.antt =====
-- What holds of a circuit breaker between two calls.
use kama_rpc_go.Base.{ℕ, ◌-◌, ◌≤◌, ◌≡◌, ◌≢◌, arith, true, false, List, [], ◌∷◌}
use kama_rpc_go.Client.Breaker.{
  closed, half_open, Config, CircuitBreaker, new_circuit_breaker, Event, asks, succeeds, fails,
  step, run,
}

-- The probe is marked exactly in the half-open state; outside the closed state nothing is counted;
-- the failures that are counted have not filled the window.
pub record IsBreaker (cfg : Config) (cb : CircuitBreaker) : Type 0 where
  pub probing : cb.state ≡ half_open → cb.half_open_probe ≡ true
  pub idle : cb.state ≢ half_open → cb.half_open_probe ≡ false
  pub uncounted : cb.state ≢ closed → (cb.failure_count ≡ 0) × (cb.success_count ≡ 0)
  pub below : cb.failure_count ≤ cfg.window_size - 1

pub new_circuit_breaker-IsBreaker :
    (cfg : Config) (now : ℕ) → IsBreaker cfg (new_circuit_breaker now)
unfolding new_circuit_breaker
new_circuit_breaker-IsBreaker cfg now = ground arith

pub step-IsBreaker :
    (cfg : Config) (cb : CircuitBreaker) (e : Event)
    → IsBreaker cfg cb
    → IsBreaker cfg (step cfg cb e)
unfolding step
step-IsBreaker cfg cb (asks now) v = ground arith
step-IsBreaker cfg cb (succeeds now) v = ground arith
step-IsBreaker cfg cb (fails now) v = ground arith

pub run-IsBreaker :
    (cfg : Config) (cb : CircuitBreaker) (es : List Event)
    → IsBreaker cfg cb
    → IsBreaker cfg (run cfg cb es)
unfolding run
run-IsBreaker cfg cb [] v = v
run-IsBreaker cfg cb (e ∷ es) v = run-IsBreaker cfg (step cfg cb e) es (step-IsBreaker cfg cb e v)

-- Every breaker that a client can have, after any calls at any times, satisfies the invariant.
pub reachable-IsBreaker :
    (cfg : Config) (now : ℕ) (es : List Event)
    → IsBreaker cfg (run cfg (new_circuit_breaker now) es)
reachable-IsBreaker cfg now es = run-IsBreaker cfg _ es (new_circuit_breaker-IsBreaker cfg now)
