-- ===== src/Client/Batch.antt =====
-- internal/client/client.go, InvokeAsyncBatch: the calls of one service are sent in one write. Like
-- InvokeAsync, a batch is given what the world answers. Without calls there are no futures.
mod Runs
use kama_rpc_go.Base.{
  ℕ, zero, suc, ◌-◌, ◌≤◌, ◌<◌, ◌≡◌, refl, arith, ltb, not, if◌then◌else◌, Bool, true, false, List,
  [], ◌∷◌, Bytes, length, Option, none, some, Error, Result, ok, err, rate_limited, breaker_open,
  client_closed, Bool-cases, inl, inr, min,
}
use kama_rpc_go.Limiter.{TokenBucket, allow as limiter_allow}
use kama_rpc_go.Protocol.Message.{Message}
use kama_rpc_go.Transport.Pool.{acquire}
use kama_rpc_go.Client.Breaker.{allow}
use kama_rpc_go.Client.Keys.{breaker_key}
use kama_rpc_go.Client.LoadBalance.{Instance}
use kama_rpc_go.Client.Invoke.{
  Client, request, select_addr, breaker_of, set_breaker, pool_of, set_pool, count_failure,
}

-- A BatchCall: the method, and what Marshal makes of the arguments.
pub record BatchCall : Type 0 where
  pub method : Bytes
  pub body : Result Bytes

-- What the world answers to one batch: as for a call, with SendAsyncBatch's futures.
pub record World : Type 0 where
  pub discovered : Result (List Instance)
  pub now : ℕ
  pub failed_at : ℕ
  pub context : Option Error
  pub dead : ℕ → Bool
  pub dialled : Result ℕ
  pub sent : ℕ → List Message → Result (List ℕ)

-- The loop over the calls at the limiter: one token each, until one is refused.
unfoldable pub take_tokens : ℕ → TokenBucket → Bool × TokenBucket
take_tokens zero tb = (true, tb)
take_tokens (suc n) tb =
    let rest = take_tokens n (limiter_allow tb).1 in
    if (limiter_allow tb).0 then rest else (false, (limiter_allow tb).1)

-- The loop that marshals: the first error ends it.
unfoldable pub with_body :
    Bytes → Bytes → ℕ → Result (List Message) → Result Bytes → Result (List Message)
with_body service method codec_type more (err e) = err e
with_body service method codec_type (err e) (ok body) = err e
with_body service method codec_type (ok msgs) (ok body) =
    ok (request service method codec_type body ∷ msgs)

unfoldable pub messages : Bytes → ℕ → List BatchCall → Result (List Message)
unfolding with_body
messages service codec_type [] = ok []
messages service codec_type (call ∷ calls) =
    with_body service call.method codec_type (messages service codec_type calls) call.body

module _ {L : Type 0} where
  unfoldable pub batch_sent :
      World → Bytes → Result (List ℕ) → Client L → Result (List ℕ) × Client L
  batch_sent w key (err e) c = (err e, count_failure key w.failed_at c)
  batch_sent w key (ok futures) c = (ok futures, c)

  unfoldable pub batch_marshalled :
      World → Bytes → ℕ → Result (List Message) → Client L → Result (List ℕ) × Client L
  unfolding batch_sent
  batch_marshalled w key conn (err e) c = (err e, c)
  batch_marshalled w key conn (ok msgs) c = batch_sent w key (w.sent conn msgs) c

  unfoldable pub batch_acquired :
      World → Bytes → Bytes → List BatchCall → Result ℕ → Client L → Result (List ℕ) × Client L
  unfolding batch_marshalled messages
  batch_acquired w service key calls (err e) c = (err e, count_failure key w.failed_at c)
  batch_acquired w service key calls (ok conn) c =
      batch_marshalled w key conn (messages service c.codec_type calls) c

  unfoldable pub batch_let :
      World → Bytes → Bytes → Bytes → List BatchCall → Client L → Result (List ℕ) × Client L
  unfolding batch_acquired
  batch_let w service key addr calls c =
      let r = acquire w.context w.dead w.dialled (pool_of addr c) in
      batch_acquired w service key calls r.0 (set_pool addr r.1 c)

  unfoldable pub batch_at :
      World → Bytes → List BatchCall → Bytes → Client L → Result (List ℕ) × Client L
  unfolding batch_let
  batch_at w service calls addr c =
      let key = breaker_key service addr in
      let r = allow c.breaker_config w.now (breaker_of key w.now c) in
      let c' = set_breaker key r.1 c in
      if r.0 then batch_let w service key addr calls c' else (err breaker_open, c')

  unfoldable pub batch_addressed :
      World → Bytes → List BatchCall → Result Bytes → Client L → Result (List ℕ) × Client L
  unfolding batch_at
  batch_addressed w service calls (err e) c = (err e, c)
  batch_addressed w service calls (ok addr) c = batch_at w service calls addr c

  -- A batch with calls.
  unfoldable pub batch_limited :
      (L → List Instance → Instance × L)
      → World
      → Bytes
      → List BatchCall
      → Client L
      → Result (List ℕ) × Client L
  unfolding take_tokens batch_addressed
  batch_limited select w service calls c =
      let r = take_tokens (length calls) c.limiter in
      let c' = record c { limiter = r.1 } in
      let a = select_addr select w.discovered c' in
      if r.0 then batch_addressed w service calls a.0 a.1 else (err rate_limited, c')

  -- InvokeAsyncBatch
  unfoldable pub invoke_async_batch :
      (L → List Instance → Instance × L)
      → World
      → Bytes
      → List BatchCall
      → Client L
      → Result (List ℕ) × Client L
  unfolding batch_limited
  invoke_async_batch select w service [] c = (ok [], c)
  invoke_async_batch select w service (call ∷ calls) c =
      if c.closed then (err client_closed, c) else batch_limited select w service (call ∷ calls) c

-- Of a batch of n calls the limiter takes a token each, as long as there are some; it lets the batch
-- through exactly if there are n, and tokens that were taken before a refusal are not given back.
pub take_tokens_lem :
    (n : ℕ) (tb : TokenBucket)
    → ((take_tokens n tb).0 ≡ not (ltb tb.tokens n))
      × ((take_tokens n tb).1.tokens ≡ tb.tokens - n)
      × ((take_tokens n tb).1.rate ≡ tb.rate)
unfolding take_tokens limiter_allow
take_tokens_lem zero tb = ground arith
take_tokens_lem (suc n) tb = elim (Bool-cases (ltb 0 tb.tokens)) [
  | inl has ↦ rw has (ground (arith, take_tokens_lem n (record tb { tokens = tb.tokens - 1 })))
  | inr spent ↦ rw spent (ground arith)
]
