-- ===== src/Client/Invoke.antt =====
-- internal/client/client.go, InvokeAsync and what it calls. One call is given what the world
-- answers: the registry, the context, the codec, the connection and the clock. A future is known
-- by a number. Calls that run at the same time share the state; here a call is one step, in the
-- order of its parts.
pub mod Verdict
pub mod Accounting
pub mod LostProbe
pub mod Waiting
mod Runs
use kama_rpc_go.Base.{
  ℕ, if◌then◌else◌, ◌==◌, Bool, true, false, List, [], ◌∷◌, ◌++◌, Bytes, length, Option, none, some,
  Error, Result, ok, err, ◌>>=◌, rate_limited, breaker_open, no_instance as no_instance_error,
  client_closed, bytes_eq, lookup, insert,
}
use kama_rpc_go.Codec.Compress.{compression_gzip}
use kama_rpc_go.Limiter.{TokenBucket, allow as limiter_allow}
use kama_rpc_go.Metrics.{Observation}
use kama_rpc_go.Protocol.Header.{Header}
use kama_rpc_go.Protocol.Message.{Message}
use kama_rpc_go.Transport.Pool.{ConnectionPool, new_connection_pool, acquire}
use kama_rpc_go.Client.Breaker.{
  Config, CircuitBreaker, new_circuit_breaker, allow, record_failure, record_success,
}
use kama_rpc_go.Client.Keys.{breaker_key}
use kama_rpc_go.Client.LoadBalance.{Instance}

-- The state of a client whose load balancer has a state of type `L`.
pub record Client (L : Type 0) : Type 0 where
  pub closed : Bool
  pub limiter : TokenBucket
  pub lb : L
  pub codec_type : ℕ
  pub breakers : List (Bytes × CircuitBreaker)
  pub pools : List (Bytes × ConnectionPool)
  pub breaker_config : Config
  pub pool_max_active : ℕ
  pub timeout : ℕ
  pub name : Bytes
  pub observed : List Observation

-- What the world answers to one call: Discover, time.Now for the breaker before the call and at a
-- failure, ctx.Err(), the state of connections, a new connection, Marshal(args), SendAsync, and
-- the time that SendAsync took.
pub record World : Type 0 where
  pub discovered : Result (List Instance)
  pub now : ℕ
  pub failed_at : ℕ
  pub context : Option Error
  pub dead : ℕ → Bool
  pub dialled : Result ℕ
  pub body : Result Bytes
  pub sent : ℕ → Message → Result ℕ
  pub elapsed : ℕ

abbrev pub request_header : Bytes → Bytes → ℕ → Header
request_header service method codec_type = record {
  request_id = 0;
  service_name = service;
  method_name = method;
  error = [];
  codec_type = codec_type;
  compression = compression_gzip;
}

abbrev pub request : Bytes → Bytes → ℕ → Bytes → Message
request service method codec_type body = record {
  header = some (request_header service method codec_type);
  body = body;
}

-- `ins.Addr == ""`
unfoldable pub address_of : Instance → Result Bytes
address_of ins = if length ins.addr == 0 then err no_instance_error else ok ins.addr

module _ {L : Type 0} (select : L → List Instance → Instance × L) where
  -- getAddr, from the instances on.
  unfoldable pub select_addr : Result (List Instance) → Client L → Result Bytes × Client L
  unfolding address_of
  select_addr (err e) c = (err e, c)
  select_addr (ok []) c = (err no_instance_error, c)
  select_addr (ok (i ∷ is)) c =
      let r = select c.lb (i ∷ is) in (address_of r.0, record c { lb = r.1 })

-- LoadOrStore: the value of the key, or the new one, which joins the map.
unfoldable pub stored_or {ℓ} : {V : Type ℓ} → V → Option V → V
stored_or v none = v
stored_or v (some w) = w

module _ {L : Type 0} where
  -- getBreaker: the breaker, and the client that keeps it.
  unfoldable pub breaker_of : Bytes → ℕ → Client L → CircuitBreaker
  unfolding stored_or
  breaker_of key now c = stored_or (new_circuit_breaker now) (lookup key c.breakers)

  abbrev pub set_breaker : Bytes → CircuitBreaker → Client L → Client L
  set_breaker key cb c = record c { breakers = insert key cb c.breakers }

  -- getPool
  unfoldable pub pool_of : Bytes → Client L → ConnectionPool
  unfolding stored_or
  pool_of addr c = stored_or (new_connection_pool c.pool_max_active) (lookup addr c.pools)

  abbrev pub set_pool : Bytes → ConnectionPool → Client L → Client L
  set_pool addr p c = record c { pools = insert addr p c.pools }

  abbrev pub observe : Bytes → Bytes → ℕ → Bool → Client L → Client L
  observe service method elapsed failed c = record c {
    observed =
        c.observed
        ++ (record { service = service; method = method; elapsed = elapsed; failed = failed } ∷ []);
  }

  -- A return with an error, after the metrics.
  abbrev pub refuse : Bytes → Bytes → ℕ → Error → Client L → Result ℕ × Client L
  refuse service method elapsed e c = (err e, observe service method elapsed true c)

  -- br.RecordFailure()
  abbrev pub count_failure : Bytes → ℕ → Client L → Client L
  count_failure key now c =
      set_breaker key (record_failure c.breaker_config now (breaker_of key now c)) c

  unfoldable pub invoke_sent :
      World → Bytes → Bytes → Bytes → Result ℕ → Client L → Result ℕ × Client L
  invoke_sent w service method key (err e) c =
      refuse service method w.elapsed e (count_failure key w.failed_at c)
  invoke_sent w service method key (ok future) c = (ok future, c)

  unfoldable pub invoke_marshalled :
      World → Bytes → Bytes → Bytes → ℕ → Result Bytes → Client L → Result ℕ × Client L
  unfolding invoke_sent
  invoke_marshalled w service method key conn (err e) c = refuse service method 0 e c
  invoke_marshalled w service method key conn (ok body) c =
      invoke_sent w service method key (w.sent conn (request service method c.codec_type body)) c

  unfoldable pub invoke_acquired :
      World → Bytes → Bytes → Bytes → Result ℕ → Client L → Result ℕ × Client L
  unfolding invoke_marshalled
  invoke_acquired w service method key (err e) c =
      refuse service method 0 e (count_failure key w.failed_at c)
  invoke_acquired w service method key (ok conn) c =
      invoke_marshalled w service method key conn w.body c

  -- Through the breaker: pool.Acquire.
  unfoldable pub invoke_let : World → Bytes → Bytes → Bytes → Bytes → Client L → Result ℕ × Client L
  unfolding invoke_acquired
  invoke_let w service method key addr c =
      let r = acquire w.context w.dead w.dialled (pool_of addr c) in
      invoke_acquired w service method key r.0 (set_pool addr r.1 c)

  unfoldable pub invoke_at : World → Bytes → Bytes → Bytes → Client L → Result ℕ × Client L
  unfolding invoke_let
  invoke_at w service method addr c =
      let key = breaker_key service addr in
      let r = allow c.breaker_config w.now (breaker_of key w.now c) in
      let c' = set_breaker key r.1 c in
      if r.0
      then invoke_let w service method key addr c'
      else refuse service method 0 breaker_open c'

  unfoldable pub invoke_addressed :
      World → Bytes → Bytes → Result Bytes → Client L → Result ℕ × Client L
  unfolding invoke_at
  invoke_addressed w service method (err e) c = refuse service method 0 e c
  invoke_addressed w service method (ok addr) c = invoke_at w service method addr c

  unfoldable pub invoke_limited :
      (L → List Instance → Instance × L) → World → Bytes → Bytes → Client L → Result ℕ × Client L
  unfolding select_addr invoke_addressed
  invoke_limited select w service method c =
      let a = select_addr select w.discovered c in invoke_addressed w service method a.0 a.1

  -- InvokeAsync
  unfoldable pub invoke_async :
      (L → List Instance → Instance × L) → World → Bytes → Bytes → Client L → Result ℕ × Client L
  unfolding invoke_limited
  invoke_async select w service method c =
      if c.closed
      then (err client_closed, c)
      else (let r = limiter_allow c.limiter in
          let c' = record c { limiter = r.1 } in
          if r.0
          then invoke_limited select w service method c'
          else refuse service method 0 rate_limited c')

  -- The callback that InvokeAsync registers with OnComplete, at the time `now`.
  unfoldable pub completed : Bytes → Bytes → Bytes → ℕ → ℕ → Option Error → Client L → Client L
  completed service method addr now elapsed (some e) c =
      observe service method elapsed true (count_failure (breaker_key service addr) now c)
  completed service method addr now elapsed none c =
      let key = breaker_key service addr in
      observe service method elapsed false
        (set_breaker key (record_success now (breaker_of key now c)) c)
