-- ===== src/Client/Breaker.antt =====
-- internal/client/breaker/breaker.go. The lock makes each method one step; the time that
-- time.Now returns is an argument, in nanoseconds. There are no floats: whether a number of
-- failures of a total reaches the threshold, float64(f)/float64(t) >= failureThreshold, is a
-- parameter of the configuration.
pub mod Invariant
pub mod Transitions
mod Runs
use kama_rpc_go.Base.{ℕ, ◌-◌, ◌+◌, ltb, if◌then◌else◌, Bool, true, false, List, [], ◌∷◌}

pub data State : Type 0 where
  closed open_state half_open : State

pub record Config : Type 0 where
  pub window_size : ℕ
  pub reaches : ℕ → ℕ → Bool
  pub open_timeout : ℕ

pub record CircuitBreaker : Type 0 where
  pub state : State
  pub failure_count : ℕ
  pub success_count : ℕ
  pub last_state_change : ℕ
  pub half_open_probe : Bool

unfoldable pub new_circuit_breaker : ℕ → CircuitBreaker
new_circuit_breaker now = record {
  state = closed;
  failure_count = 0;
  success_count = 0;
  last_state_change = now;
  half_open_probe = false;
}

unfoldable pub reset_counts : CircuitBreaker → CircuitBreaker
reset_counts cb = record cb { failure_count = 0; success_count = 0 }

unfoldable pub to_open : ℕ → CircuitBreaker → CircuitBreaker
unfolding reset_counts
to_open now cb = record (reset_counts (record cb { state = open_state; last_state_change = now })) {
  half_open_probe = false;
}

unfoldable pub to_closed : ℕ → CircuitBreaker → CircuitBreaker
unfolding reset_counts
to_closed now cb = record (reset_counts (record cb { state = closed; last_state_change = now })) {
  half_open_probe = false;
}

-- The cases of the `switch` of Allow, RecordSuccess and RecordFailure.
unfoldable pub allow_in : State → Config → ℕ → CircuitBreaker → Bool × CircuitBreaker
allow_in closed cfg now cb = (true, cb)
allow_in open_state cfg now cb =
    if ltb cfg.open_timeout (now - cb.last_state_change)
    then (true, record cb { state = half_open; last_state_change = now; half_open_probe = true })
    else (false, cb)
allow_in half_open cfg now cb =
    if cb.half_open_probe then (false, cb) else (true, record cb { half_open_probe = true })

unfoldable pub success_in : State → ℕ → CircuitBreaker → CircuitBreaker
unfolding to_closed
success_in closed now cb = record cb { success_count = cb.success_count + 1 }
success_in half_open now cb = to_closed now cb
success_in open_state now cb = cb

-- A failure that was counted, with the total of the window.
unfoldable pub after_failure : Config → ℕ → CircuitBreaker → CircuitBreaker
unfolding to_open reset_counts
after_failure cfg now cb =
    let total = cb.failure_count + cb.success_count in
    if ltb total cfg.window_size
    then cb
    else if cfg.reaches cb.failure_count total
    then to_open now cb
    else reset_counts cb

unfoldable pub failure_in : State → Config → ℕ → CircuitBreaker → CircuitBreaker
unfolding after_failure
failure_in closed cfg now cb =
    after_failure cfg now (record cb { failure_count = cb.failure_count + 1 })
failure_in half_open cfg now cb = to_open now cb
failure_in open_state cfg now cb = cb

unfoldable pub allow : Config → ℕ → CircuitBreaker → Bool × CircuitBreaker
unfolding allow_in
allow cfg now cb = allow_in cb.state cfg now cb

unfoldable pub record_success : ℕ → CircuitBreaker → CircuitBreaker
unfolding success_in
record_success now cb = success_in cb.state now cb

unfoldable pub record_failure : Config → ℕ → CircuitBreaker → CircuitBreaker
unfolding failure_in
record_failure cfg now cb = failure_in cb.state cfg now cb

-- The calls that a client makes, each at a time.
pub data Event : Type 0 where
  asks succeeds fails : ℕ → Event

unfoldable pub step : Config → CircuitBreaker → Event → CircuitBreaker
unfolding allow record_success record_failure
step cfg cb (asks now) = (allow cfg now cb).1
step cfg cb (succeeds now) = record_success now cb
step cfg cb (fails now) = record_failure cfg now cb

unfoldable pub run : Config → CircuitBreaker → List Event → CircuitBreaker
run cfg cb [] = cb
run cfg cb (e ∷ es) = run cfg (step cfg cb e) es

-- Snapshot: the state and the counts, of one moment.
pub snapshot : CircuitBreaker → State × ℕ × ℕ
snapshot cb = (cb.state, cb.failure_count, cb.success_count)
