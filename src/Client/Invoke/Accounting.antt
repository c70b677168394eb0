-- ===== src/Client/Invoke/Accounting.antt =====
-- What a call does to the circuit breakers.
use kama_rpc_go.Base.{
  bytes_beq, sym, ℕ, ◌<◌, ◌≡◌, refl, ap, ◌∙◌, if◌then◌else◌, true, false, List, [], ◌∷◌, Bytes,
  some, Result, ok, err, lt→ltb, Bool-cases, inl, inr, client_closed, if_false, if_true, bytes_eq,
  bytes_beq_iff, lookup, insert, lookup-insert, lookup-insert_self,
}
use kama_rpc_go.Limiter.{TokenBucket, allow as limiter_allow}
use kama_rpc_go.Transport.Pool.{acquire}
use kama_rpc_go.Client.Breaker.{
  Config, CircuitBreaker, Event, asks, fails, step, run, new_circuit_breaker, allow, record_failure,
}
use kama_rpc_go.Client.Keys.{breaker_key}
use kama_rpc_go.Client.LoadBalance.{Instance}
use kama_rpc_go.Client.Invoke.{
  Client, World, request, select_addr, breaker_of, set_breaker, pool_of, set_pool, count_failure,
  stored_or, invoke_sent, invoke_marshalled, invoke_acquired, invoke_let, invoke_at,
  invoke_addressed, invoke_limited, invoke_async,
}
use kama_rpc_go.Client.Invoke.Verdict.{chosen}

-- The breaker of `key`, which was `cb`, has been through the events, and the others are as before.
abbrev pub Moved :
    Config
    → Bytes
    → CircuitBreaker
    → List Event
    → List (Bytes × CircuitBreaker)
    → List (Bytes × CircuitBreaker)
    → Type 0
Moved cfg key cb es before after =
    (k : Bytes)
    → lookup k after ≡ (if bytes_beq key k then some (run cfg cb es) else lookup k before)

insert-Moved :
    (cfg : Config) (key : Bytes) (cb v : CircuitBreaker) (es : List Event)
    (m : List (Bytes × CircuitBreaker))
    → v ≡ run cfg cb es
    → Moved cfg key cb es m (insert key v m)
insert-Moved cfg key cb v es m e =
    λ k. lookup-insert key k v m ∙ ap (λ b. if bytes_beq key k then some b else lookup k m) e

kept-Moved :
    (cfg : Config) (key : Bytes) (cb : CircuitBreaker) (m : List (Bytes × CircuitBreaker))
    → lookup key m ≡ some cb
    → Moved cfg key cb [] m m
unfolding run
kept-Moved cfg key cb m h = λ k. elim (Bool-cases (bytes_beq key k)) [
  | inl same ↦
      let e : key ≡ k = (bytes_beq_iff key k).0 same in
      ap (λ j. lookup j m) (sym e) ∙ h ∙ sym (if_true (some cb) (lookup k m) same)
  | inr differs ↦ sym (if_false (some cb) (lookup k m) differs)
]

Moved-then :
    (cfg : Config) (key : Bytes) (cb v : CircuitBreaker) (e : Event) (es : List Event)
    (m after : List (Bytes × CircuitBreaker))
    → v ≡ step cfg cb e
    → Moved cfg key v es (insert key v m) after
    → Moved cfg key cb (e ∷ es) m after
unfolding run
Moved-then cfg key cb v e es m after same moved = λ k.
    let then_moved = run cfg v es in
    moved k ∙ elim (Bool-cases (bytes_beq key k)) [
      | inl here ↦
          if_true (some then_moved) (lookup k (insert key v m)) here
          ∙ ap (λ b. some (run cfg b es)) same
          ∙ sym (if_true (some (run cfg (step cfg cb e) es)) (lookup k m) here)
      | inr other ↦
          if_false (some then_moved) (lookup k (insert key v m)) other
          ∙ lookup-insert key k v m
          ∙ if_false (some v) (lookup k m) other
          ∙ sym (if_false (some (run cfg (step cfg cb e) es)) (lookup k m) other)
    ]

count_failure-Moved :
    {L : Type 0} (key : Bytes) (now : ℕ) (c : Client L) (cb : CircuitBreaker)
    → lookup key c.breakers ≡ some cb
    → Moved c.breaker_config key cb (fails now ∷ []) c.breakers (count_failure key now c).breakers
unfolding breaker_of stored_or run step
count_failure-Moved key now c cb h =
    insert-Moved c.breaker_config key cb _ (fails now ∷ []) c.breakers
      (ap (λ o. record_failure c.breaker_config now (stored_or (new_circuit_breaker now) o)) h)

-- What the breaker is told of a call that it let through: the failures of the connection and of
-- sending; a failure to encode is not told.
unfoldable pub sent_events : World → Result ℕ → List Event
sent_events w (err e) = fails w.failed_at ∷ []
sent_events w (ok future) = []

unfoldable pub marshalled_events : World → (Bytes → Result ℕ) → Result Bytes → List Event
marshalled_events w send (err e) = []
marshalled_events w send (ok body) = sent_events w (send body)

unfoldable pub acquired_events : World → (ℕ → Bytes → Result ℕ) → Result ℕ → List Event
acquired_events w send (err e) = fails w.failed_at ∷ []
acquired_events w send (ok conn) = marshalled_events w (send conn) w.body

limiter_lets : (tb : TokenBucket) → 0 < tb.tokens → (limiter_allow tb).0 ≡ true
unfolding limiter_allow
limiter_lets tb has = rw (lt→ltb _ _ has) refl

module _ {L : Type 0} (w : World) (service method : Bytes) where
  abbrev pub send_request : Client L → ℕ → Bytes → Result ℕ
  send_request c conn body = w.sent conn (request service method c.codec_type body)

  invoke_sent-Moved :
      (key : Bytes) (r : Result ℕ) (c : Client L) (cb : CircuitBreaker)
      → lookup key c.breakers ≡ some cb
      → Moved c.breaker_config key cb
          (sent_events w r)
          c.breakers
          (invoke_sent w service method key r c).1.breakers
  unfolding invoke_sent sent_events
  invoke_sent-Moved key (err e) c cb h = count_failure-Moved key w.failed_at c cb h
  invoke_sent-Moved key (ok future) c cb h = kept-Moved c.breaker_config key cb c.breakers h

  invoke_marshalled-Moved :
      (key : Bytes) (conn : ℕ) (b : Result Bytes) (c : Client L) (cb : CircuitBreaker)
      → lookup key c.breakers ≡ some cb
      → Moved c.breaker_config key cb
          (marshalled_events w (send_request c conn) b)
          c.breakers
          (invoke_marshalled w service method key conn b c).1.breakers
  unfolding invoke_marshalled marshalled_events
  invoke_marshalled-Moved key conn (err e) c cb h = kept-Moved c.breaker_config key cb c.breakers h
  invoke_marshalled-Moved key conn (ok body) c cb h = invoke_sent-Moved key _ c cb h

  invoke_acquired-Moved :
      (key : Bytes) (r : Result ℕ) (c : Client L) (cb : CircuitBreaker)
      → lookup key c.breakers ≡ some cb
      → Moved c.breaker_config key cb
          (acquired_events w (send_request c) r)
          c.breakers
          (invoke_acquired w service method key r c).1.breakers
  unfolding invoke_acquired acquired_events
  invoke_acquired-Moved key (err e) c cb h = count_failure-Moved key w.failed_at c cb h
  invoke_acquired-Moved key (ok conn) c cb h = invoke_marshalled-Moved key conn w.body c cb h

  -- The events of a call to `addr`: it asks, and what follows if it is let through.
  unfoldable pub call_events : Client L → Bytes → List Event
  call_events c addr =
      asks w.now
      ∷ (if (allow c.breaker_config w.now (breaker_of (breaker_key service addr) w.now c)).0
          then acquired_events w (send_request c)
              (acquire w.context w.dead w.dialled (pool_of addr c)).0
          else [])

  invoke_let-Moved :
      (key addr : Bytes) (c : Client L) (cb : CircuitBreaker)
      → lookup key c.breakers ≡ some cb
      → Moved c.breaker_config key cb
          (acquired_events w
            (send_request c)
            (acquire w.context w.dead w.dialled (pool_of addr c)).0)
          c.breakers
          (invoke_let w service method key addr c).1.breakers
  unfolding invoke_let
  invoke_let-Moved key addr c cb h =
      let r = acquire w.context w.dead w.dialled (pool_of addr c) in
      invoke_acquired-Moved key r.0 (set_pool addr r.1 c) cb h

  invoke_at-Moved :
      (addr : Bytes) (c : Client L)
      → (let key = breaker_key service addr in
          Moved c.breaker_config key
            (breaker_of key w.now c)
            (call_events c addr)
            c.breakers
            (invoke_at w service method addr c).1.breakers)
  unfolding invoke_at call_events pool_of step
  invoke_at-Moved addr c =
      let key = breaker_key service addr in
      let cb = breaker_of key w.now c in
      let r = allow c.breaker_config w.now cb in
      elim (Bool-cases r.0) [
        | inl lets ↦ rw lets (
            Moved-then c.breaker_config key cb r.1 (asks w.now) _ c.breakers _ refl (
              invoke_let-Moved key addr (set_breaker key r.1 c) r.1
                (lookup-insert_self key r.1 c.breakers)))
        | inr refuses ↦ rw refuses (
            insert-Moved c.breaker_config key cb r.1 (asks w.now ∷ []) c.breakers
              (unfold run in refl))
      ]

  select_addr-chosen :
      (select : L → List Instance → Instance × L) (d : Result (List Instance)) (c : Client L)
      (addr : Bytes)
      → chosen select c.lb d ≡ ok addr
      → (l : L) × (select_addr select d c ≡ (ok addr, record c { lb = l }))
  unfolding select_addr chosen
  select_addr-chosen select (err e) c addr h = cc
  select_addr-chosen select (ok []) c addr h = cc
  select_addr-chosen select (ok (i ∷ is)) c addr h =
      ((select c.lb (i ∷ is)).1, ap (λ a. (a, record c { lb = (select c.lb (i ∷ is)).1 })) h)

  -- A call of an open client that has a token, when an address is chosen.
  reaches_at :
      (select : L → List Instance → Instance × L) (c : Client L) (addr : Bytes)
      → c.closed ≡ false
      → 0 < c.limiter.tokens
      → chosen select c.lb w.discovered ≡ ok addr
      → (t : TokenBucket) × (l : L) × (invoke_async select w service method c
          ≡ invoke_at w service method addr (record c { limiter = t; lb = l }))
  unfolding invoke_async invoke_limited invoke_addressed
  reaches_at select c addr live has picks =
      let t = (limiter_allow c.limiter).1 in
      let (l, picked) =
        select_addr-chosen select w.discovered (record c { limiter = t }) addr picks in
      (
        t,
        l,
        if_false (err client_closed, c) _ live
            ∙ if_true _ _ (limiter_lets c.limiter has)
            ∙ ap (λ (a : Result Bytes × Client L). invoke_addressed w service method a.0 a.1)
                picked,
      )

  -- A call whose address is chosen, by an open client that has a token, shows the breaker of that
  -- service and address: that it asks, and, if it is let through, a failure of the connection or of
  -- sending, nothing if the arguments cannot be encoded, and nothing yet if it is sent. All other
  -- breakers, of other services or of other addresses, are left as they are.
  pub invoke_async-Moved :
      (select : L → List Instance → Instance × L) (c : Client L) (addr : Bytes)
      → c.closed ≡ false
      → 0 < c.limiter.tokens
      → chosen select c.lb w.discovered ≡ ok addr
      → Moved c.breaker_config
          (breaker_key service addr)
          (breaker_of (breaker_key service addr) w.now c)
          (call_events c addr)
          c.breakers
          (invoke_async select w service method c).1.breakers
  unfolding call_events breaker_of pool_of
  invoke_async-Moved select c addr live has picks =
      let (t, l, e) = reaches_at select c addr live has picks in
      rw e (invoke_at-Moved addr (record c { limiter = t; lb = l }))
