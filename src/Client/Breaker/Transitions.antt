-- ===== src/Client/Breaker/Transitions.antt =====
-- The state machine of the circuit breaker.
use kama_rpc_go.Base.{
  ℕ, ap, ltb→lt, ltb→le, Bool-cases, ◌-◌, ◌+◌, ◌≤◌, ◌<◌, ◌≡◌, refl, ◌⊎◌, inl, inr, arith, ltb, true,
  false, List, [], ◌∷◌,
}
use kama_rpc_go.Client.Breaker.{
  State, closed, open_state, half_open, Config, CircuitBreaker, allow, Event, asks, succeeds, fails,
  step, run,
}
use kama_rpc_go.Client.Breaker.Invariant.{IsBreaker}
use kama_rpc_go.Client.Breaker.{allow_in, success_in, failure_in, snapshot}

-- The diagram: when each change of state happens, and by which call.
pub data Edge (cfg : Config) (cb : CircuitBreaker) : Event → State → Type 0 where
  stay : (e : Event) (s : State) → cb.state ≡ s → Edge cfg cb e s
  trip :
      (now : ℕ)
      → cb.state ≡ closed
      → cfg.window_size ≤ cb.failure_count + 1 + cb.success_count
      → cfg.reaches (cb.failure_count + 1) (cb.failure_count + 1 + cb.success_count) ≡ true
      → Edge cfg cb (fails now) open_state
  probe :
      (now : ℕ)
      → cb.state ≡ open_state
      → cfg.open_timeout < now - cb.last_state_change
      → Edge cfg cb (asks now) half_open
  recover : (now : ℕ) → cb.state ≡ half_open → Edge cfg cb (succeeds now) closed
  relapse : (now : ℕ) → cb.state ≡ half_open → Edge cfg cb (fails now) open_state

allow-Edge :
    (cfg : Config) (cb : CircuitBreaker) (now : ℕ) (s : State)
    → cb.state ≡ s
    → Edge cfg cb (asks now) (allow_in s cfg now cb).1.state
unfolding allow_in
allow-Edge cfg cb now closed h = stay _ _ refl
allow-Edge cfg cb now open_state h =
    elim (Bool-cases (ltb cfg.open_timeout (now - cb.last_state_change))) [
      | inl late ↦ rw late (probe now h (ltb→lt _ _ late))
      | inr early ↦ rw early (stay _ _ refl)
    ]
allow-Edge cfg cb now half_open h = elim (Bool-cases cb.half_open_probe) [
  | inl out ↦ rw out (stay _ _ refl)
  | inr free ↦ rw free (stay _ _ refl)
]

record_success-Edge :
    (cfg : Config) (cb : CircuitBreaker) (now : ℕ) (s : State)
    → cb.state ≡ s
    → Edge cfg cb (succeeds now) (success_in s now cb).state
unfolding success_in
record_success-Edge cfg cb now closed h = stay _ _ refl
record_success-Edge cfg cb now half_open h = recover now h
record_success-Edge cfg cb now open_state h = stay _ _ refl

record_failure-Edge :
    (cfg : Config) (cb : CircuitBreaker) (now : ℕ) (s : State)
    → cb.state ≡ s
    → Edge cfg cb (fails now) (failure_in s cfg now cb).state
unfolding failure_in
record_failure-Edge cfg cb now closed h =
    elim (Bool-cases (ltb (cb.failure_count + 1 + cb.success_count) cfg.window_size)) [
      | inl few ↦ rw few (stay _ _ refl)
      | inr full ↦
          rw full
            (elim (Bool-cases
              (cfg.reaches (cb.failure_count + 1) (cb.failure_count + 1 + cb.success_count))) [
                | inl bad ↦ rw bad (trip now h (ltb→le _ _ full) bad)
                | inr good ↦ rw good (stay _ _ refl)
              ])
    ]
record_failure-Edge cfg cb now half_open h = relapse now h
record_failure-Edge cfg cb now open_state h = stay _ _ refl

-- Every call moves along the diagram: the breaker opens from closed only by a failure that fills
-- the window at the threshold, is probed only after the timeout, and leaves half-open only by the
-- result of a call.
pub step-Edge :
    (cfg : Config) (cb : CircuitBreaker) (e : Event) → Edge cfg cb e (step cfg cb e).state
unfolding step
step-Edge cfg cb (asks now) = allow-Edge cfg cb now cb.state refl
step-Edge cfg cb (succeeds now) = record_success-Edge cfg cb now cb.state refl
step-Edge cfg cb (fails now) = record_failure-Edge cfg cb now cb.state refl

-- An open breaker lets nothing through until the timeout has passed, and then one call, which
-- makes it half-open.
pub open_allow :
    (cfg : Config) (now : ℕ) (cb : CircuitBreaker)
    → cb.state ≡ open_state
    → ((now - cb.last_state_change ≤ cfg.open_timeout) × (allow cfg now cb ≡ (false, cb)))
      ⊎ ((cfg.open_timeout < now - cb.last_state_change)
          × ((allow cfg now cb).0 ≡ true)
          × ((allow cfg now cb).1.state ≡ half_open))
unfolding allow
open_allow cfg now cb h = ground arith

abbrev pub asks_at : List ℕ → List Event
asks_at [] = []
asks_at (t ∷ ts) = asks t ∷ asks_at ts

half_open_allow :
    (cfg : Config) (now : ℕ) (cb : CircuitBreaker)
    → IsBreaker cfg cb
    → cb.state ≡ half_open
    → allow cfg now cb ≡ (false, cb)
unfolding allow
half_open_allow cfg now cb v h = ground arith

half_open_step :
    (cfg : Config) (now : ℕ) (cb : CircuitBreaker)
    → IsBreaker cfg cb
    → cb.state ≡ half_open
    → step cfg cb (asks now) ≡ cb
unfolding step
half_open_step cfg now cb v h = ground arith

-- While a half-open breaker waits for the result of its probe, no call is let through, at any
-- time and however often it is asked.
pub half_open_blocks :
    (cfg : Config) (cb : CircuitBreaker) (times : List ℕ) (now : ℕ)
    → IsBreaker cfg cb
    → cb.state ≡ half_open
    → (run cfg cb (asks_at times) ≡ cb) × ((allow cfg now (run cfg cb (asks_at times))).0 ≡ false)
unfolding run
half_open_blocks cfg cb [] now v h = (refl, ap (λ t. t.0) (half_open_allow cfg now cb v h))
half_open_blocks cfg cb (t ∷ times) now v h =
    rw (half_open_step cfg t cb v h, run) (half_open_blocks cfg cb times now v h)

-- After the timeout an open breaker goes through one probe, whose success closes it with counts
-- of zero, and whose failure opens it again from that moment on.
pub probe_result :
    (cfg : Config) (cb : CircuitBreaker) (t u : ℕ)
    → cb.state ≡ open_state
    → cfg.open_timeout < t - cb.last_state_change
    → (snapshot (run cfg cb (asks t ∷ succeeds u ∷ [])) ≡ (closed, 0, 0))
      × (snapshot (run cfg cb (asks t ∷ fails u ∷ [])) ≡ (open_state, 0, 0))
      × ((run cfg cb (asks t ∷ fails u ∷ [])).last_state_change ≡ u)
unfolding run step snapshot
probe_result cfg cb t u h late = ground arith
