-- ===== src/Client/Invoke/Waiting.antt =====
-- client.go, Invoke: InvokeAsync and the wait for its future, up to the context's end or the
-- client's timeout.
use kama_rpc_go.Base.{
  ℕ, ◌-◌, ◌<◌, ◌≡◌, ap, ◌∙◌, true, false, List, [], ◌∷◌, Bytes, Error, some, Result, ok, err, ◌>>=◌,
  if_true, if_false, lt→ltb, bytes_eq, lookup,
}
use kama_rpc_go.Transport.Future.{Future, get_result_of}
use kama_rpc_go.Transport.Pool.{acquire}
use kama_rpc_go.Client.Breaker.{CircuitBreaker, open_state, asks, run, allow}
use kama_rpc_go.Client.Breaker.Invariant.{IsBreaker}
use kama_rpc_go.Client.Breaker.Transitions.{asks_at}
use kama_rpc_go.Client.Keys.{breaker_key}
use kama_rpc_go.Client.LoadBalance.{Instance}
use kama_rpc_go.Client.Invoke.{Client, World, breaker_of, pool_of, invoke_async}
use kama_rpc_go.Client.Invoke.Verdict.{
  chosen, deliver, verdict_at, verdict_open, verdict, invoke_async-Answers,
}
use kama_rpc_go.Client.Invoke.Accounting.{
  acquired_events, marshalled_events, sent_events, send_request, call_events,
}
use kama_rpc_go.Client.Invoke.LostProbe.{probe_starts, probe_blocks}

-- The case that `select` takes: the future's channel is closed, or the context has ended.
pub data Wake : Type 0 where
  finished : Future → Wake
  expired : Error → Wake

-- GetResult, on a future that is done, or the context's error.
unfoldable pub wait_for : {A : Type 0} → (ℕ → Bytes → Result A) → Wake → Result A
wait_for unmarshal (finished f) = get_result_of unmarshal f f.err_of
wait_for unmarshal (expired e) = err e

module _ {L A : Type 0} where
  unfoldable pub invoke :
      (L → List Instance → Instance × L)
      → World
      → Bytes
      → Bytes
      → (ℕ → Bytes → Result A)
      → (ℕ → Wake)
      → Client L
      → Result A × Client L
  unfolding wait_for
  invoke select w service method unmarshal wakes c =
      let r = invoke_async select w service method c in
      (r.0 >>= λ future. wait_for unmarshal (wakes future), r.1)

module _ {L : Type 0} (w : World) (service method : Bytes) where
  call_events-sent :
      (c : Client L) (addr body : Bytes) (conn future : ℕ)
      → (allow c.breaker_config w.now (breaker_of (breaker_key service addr) w.now c)).0 ≡ true
      → (acquire w.context w.dead w.dialled (pool_of addr c)).0 ≡ ok conn
      → w.body ≡ ok body
      → send_request w service method c conn body ≡ ok future
      → call_events w service method c addr ≡ asks w.now ∷ []
  unfolding call_events acquired_events marshalled_events sent_events
  call_events-sent c addr body conn future lets acquired encoded sent =
      ap (λ es. asks w.now ∷ es)
        (if_true _ _ lets
          ∙ ap (acquired_events w (send_request w service method c)) acquired
          ∙ ap (marshalled_events w (send_request w service method c conn)) encoded
          ∙ ap (sent_events w) sent)

  -- A call that is let through and sent is answered with its future.
  invoke_async-sent :
      (select : L → List Instance → Instance × L) (c : Client L) (addr body : Bytes)
      (conn future : ℕ)
      → c.closed ≡ false
      → 0 < c.limiter.tokens
      → chosen select c.lb w.discovered ≡ ok addr
      → (allow c.breaker_config w.now (breaker_of (breaker_key service addr) w.now c)).0 ≡ true
      → (acquire w.context w.dead w.dialled (pool_of addr c)).0 ≡ ok conn
      → w.body ≡ ok body
      → send_request w service method c conn body ≡ ok future
      → (invoke_async select w service method c).0 ≡ ok future
  unfolding verdict verdict_open verdict_at deliver
  invoke_async-sent select c addr body conn future live has picks lets acquired encoded sent =
      (invoke_async-Answers w service method select c).0
      ∙ if_false _ _ live
      ∙ if_true _ _ (lt→ltb _ _ has)
      ∙ ap (λ a. a >>= verdict_at w service method c) picks
      ∙ if_true _ _ lets
      ∙ ap (deliver w service method c.codec_type) acquired
      ∙ ap (λ (b : Result Bytes). b >>= send_request w service method c conn) encoded
      ∙ sent

  -- A synchronous call that runs into its deadline is an error, of which the breaker is told nothing
  -- while its future is not done: if the call was the one that an open breaker lets through after
  -- its timeout, no later call of the service is let through to the instance, at any time, however
  -- often the breaker is asked, as long as it is told nothing: as long as neither this future nor
  -- a call that was let through before is done.
  pub expired_probe_blocks :
      {A : Type 0} (select : L → List Instance → Instance × L) (unmarshal : ℕ → Bytes → Result A)
      (wakes : ℕ → Wake) (c : Client L) (addr body : Bytes) (conn future : ℕ) (e : Error)
      (times : List ℕ) (later : ℕ)
      → c.closed ≡ false
      → 0 < c.limiter.tokens
      → chosen select c.lb w.discovered ≡ ok addr
      → IsBreaker c.breaker_config (breaker_of (breaker_key service addr) w.now c)
      → (breaker_of (breaker_key service addr) w.now c).state ≡ open_state
      → c.breaker_config.open_timeout
        < w.now - (breaker_of (breaker_key service addr) w.now c).last_state_change
      → (acquire w.context w.dead w.dialled (pool_of addr c)).0 ≡ ok conn
      → w.body ≡ ok body
      → send_request w service method c conn body ≡ ok future
      → wakes future ≡ expired e
      → (let r = invoke select w service method unmarshal wakes c in
          (r.0 ≡ err e)
          × ((cb : CircuitBreaker) × (lookup (breaker_key service addr) r.1.breakers ≡ some cb)
              × ((allow c.breaker_config later (run c.breaker_config cb (asks_at times))).0
                  ≡ false)))
  unfolding invoke wait_for
  expired_probe_blocks select unmarshal wakes c addr body conn future e times later live has picks v
        opened late acquired encoded sent expires =
      let (lets, _) = probe_starts c.breaker_config w.now _ opened late in
      let answer =
        invoke_async-sent select c addr body conn future live has picks lets acquired encoded
          sent in
      (
        ap (λ r. r >>= λ f. wait_for unmarshal (wakes f)) answer ∙ ap (wait_for unmarshal) expires,
        probe_blocks w service method select c addr times later live has picks v opened late
            (call_events-sent c addr body conn future lets acquired encoded sent),
      )
