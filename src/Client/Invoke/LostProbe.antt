-- ===== src/Client/Invoke/LostProbe.antt =====
-- InvokeAsync: a call that a half-open breaker lets through, and that is never reported to it.
use kama_rpc_go.Base.{
  beq_refl, ℕ, ◌-◌, ◌<◌, ◌≡◌, refl, ap, ◌∙◌, arith, true, false, List, [], ◌∷◌, Bytes, Error, some,
  ok, err, if_true, bytes_eq, lookup,
}
use kama_rpc_go.Transport.Pool.{acquire}
use kama_rpc_go.Client.Breaker.{
  Config, CircuitBreaker, open_state, half_open, asks, step, run, allow, allow_in,
}
use kama_rpc_go.Client.Breaker.Invariant.{IsBreaker, step-IsBreaker}
use kama_rpc_go.Client.Breaker.Transitions.{asks_at, half_open_blocks}
use kama_rpc_go.Client.Keys.{breaker_key}
use kama_rpc_go.Client.LoadBalance.{Instance}
use kama_rpc_go.Client.Invoke.{Client, World, breaker_of, pool_of, invoke_async}
use kama_rpc_go.Client.Invoke.Verdict.{chosen}
use kama_rpc_go.Client.Invoke.Accounting.{
  acquired_events, marshalled_events, send_request, call_events, invoke_async-Moved,
}

pub probe_starts :
    (cfg : Config) (now : ℕ) (cb : CircuitBreaker)
    → cb.state ≡ open_state
    → cfg.open_timeout < now - cb.last_state_change
    → ((allow cfg now cb).0 ≡ true) × ((step cfg cb (asks now)).state ≡ half_open)
unfolding step allow allow_in
probe_starts cfg now cb opened late = ground arith

module _ {L : Type 0} (w : World) (service method : Bytes) where
  call_events-lost :
      (c : Client L) (addr : Bytes) (conn : ℕ) (e : Error)
      → (allow c.breaker_config w.now (breaker_of (breaker_key service addr) w.now c)).0 ≡ true
      → (acquire w.context w.dead w.dialled (pool_of addr c)).0 ≡ ok conn
      → w.body ≡ err e
      → call_events w service method c addr ≡ asks w.now ∷ []
  unfolding call_events acquired_events marshalled_events
  call_events-lost c addr conn e lets acquired unencoded =
      ap (λ es. asks w.now ∷ es)
        (if_true _ _ lets
          ∙ ap (acquired_events w (send_request w service method c)) acquired
          ∙ ap (marshalled_events w (send_request w service method c conn)) unencoded)

  -- A half-open breaker that is asked and told nothing more lets nothing through.
  pub probe_blocks :
      (select : L → List Instance → Instance × L) (c : Client L) (addr : Bytes) (times : List ℕ)
      (later : ℕ)
      → c.closed ≡ false
      → 0 < c.limiter.tokens
      → chosen select c.lb w.discovered ≡ ok addr
      → IsBreaker c.breaker_config (breaker_of (breaker_key service addr) w.now c)
      → (breaker_of (breaker_key service addr) w.now c).state ≡ open_state
      → c.breaker_config.open_timeout
        < w.now - (breaker_of (breaker_key service addr) w.now c).last_state_change
      → call_events w service method c addr ≡ asks w.now ∷ []
      → (cb : CircuitBreaker) × (lookup
            (breaker_key service addr)
            (invoke_async select w service method c).1.breakers
          ≡ some cb)
        × ((allow c.breaker_config later (run c.breaker_config cb (asks_at times))).0 ≡ false)
  probe_blocks select c addr times later live has picks v opened late events =
      let key = breaker_key service addr in
      let cb = breaker_of key w.now c in
      let after = step c.breaker_config cb (asks w.now) in
      let (lets, probing) = probe_starts c.breaker_config w.now cb opened late in
      let moved = invoke_async-Moved w service method select c addr live has picks in
      (
        after,
        moved key
            ∙ if_true _ _ (beq_refl key)
            ∙ ap (λ es. some (run c.breaker_config cb es)) events
            ∙ unfold run in refl,
        (half_open_blocks c.breaker_config after times later
            (step-IsBreaker c.breaker_config cb (asks w.now) v) probing).1,
      )

  -- A probe that is lost: when the breaker of an instance lets its one call through, a connection is
  -- there, and the arguments of that call cannot be encoded, then no later call of the service is
  -- let through to the instance, at any time, however often the breaker is asked, as long as it is
  -- told nothing: as long as no call that was let through before ends.
  pub lost_probe_blocks :
      (select : L → List Instance → Instance × L) (c : Client L) (addr : Bytes) (conn : ℕ)
      (e : Error) (times : List ℕ) (later : ℕ)
      → c.closed ≡ false
      → 0 < c.limiter.tokens
      → chosen select c.lb w.discovered ≡ ok addr
      → IsBreaker c.breaker_config (breaker_of (breaker_key service addr) w.now c)
      → (breaker_of (breaker_key service addr) w.now c).state ≡ open_state
      → c.breaker_config.open_timeout
        < w.now - (breaker_of (breaker_key service addr) w.now c).last_state_change
      → (acquire w.context w.dead w.dialled (pool_of addr c)).0 ≡ ok conn
      → w.body ≡ err e
      → (cb : CircuitBreaker) × (lookup
            (breaker_key service addr)
            (invoke_async select w service method c).1.breakers
          ≡ some cb)
        × ((allow c.breaker_config later (run c.breaker_config cb (asks_at times))).0 ≡ false)
  lost_probe_blocks select c addr conn e times later live has picks v opened late acquired
        unencoded =
      let (lets, _) = probe_starts c.breaker_config w.now _ opened late in
      probe_blocks select c addr times later live has picks v opened late
        (call_events-lost c addr conn e lets acquired unencoded)
