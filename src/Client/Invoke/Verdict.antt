-- ===== src/Client/Invoke/Verdict.antt =====
-- What InvokeAsync answers, and what it tells the metrics.
use kama_rpc_go.Base.{
  ℕ, ◌≡◌, refl, if◌then◌else◌, Bool, true, false, List, [], ◌∷◌, ◌++◌, Bytes, Result, ok, err,
  ◌>>=◌, ltb, rate_limited, breaker_open, no_instance, client_closed, Bool-cases, inl, inr,
  bytes_eq,
}
use kama_rpc_go.Limiter.{TokenBucket, allow as limiter_allow}
use kama_rpc_go.Metrics.{Observation}
use kama_rpc_go.Transport.Pool.{acquire}
use kama_rpc_go.Client.Breaker.{allow}
use kama_rpc_go.Client.Keys.{breaker_key}
use kama_rpc_go.Client.LoadBalance.{Instance}
use kama_rpc_go.Client.Invoke.{
  Client, World, request, select_addr, breaker_of, set_breaker, pool_of, set_pool, address_of,
  refuse, invoke_sent, invoke_marshalled, invoke_acquired, invoke_let, invoke_at, invoke_addressed,
  invoke_limited, invoke_async,
}

-- The first failure on the way to the connection is the answer, and SendAsync's answer otherwise.
unfoldable pub deliver : World → Bytes → Bytes → ℕ → Result ℕ → Result ℕ
deliver w service method codec_type acquired = do
  conn ← acquired
  body ← w.body
  w.sent conn (request service method codec_type body)

-- What the metrics are told of a call that begins: nothing of a success, which its future reports
-- later, and one failed call of an error.
abbrev pub Told : Bytes → Bytes → Result ℕ → List Observation → List Observation → Type 0
Told service method (ok future) before after = after ≡ before
Told service method (err e) before after =
    (t : ℕ) × (after
      ≡ before ++ (record { service = service; method = method; elapsed = t; failed = true } ∷ []))

-- The address that is chosen among the instances.
unfoldable pub chosen {ℓ} :
    {L : Type ℓ} → (L → List Instance → Instance × L) → L → Result (List Instance) → Result Bytes
chosen select lb (err e) = err e
chosen select lb (ok []) = err no_instance
chosen select lb (ok (i ∷ is)) = address_of (select lb (i ∷ is)).0

module _ {L : Type 0} (w : World) (service method : Bytes) where
  unfoldable pub verdict_at : Client L → Bytes → Result ℕ
  verdict_at c addr =
      if (allow c.breaker_config w.now (breaker_of (breaker_key service addr) w.now c)).0
      then deliver w service method c.codec_type
          (acquire w.context w.dead w.dialled (pool_of addr c)).0
      else err breaker_open

  unfoldable pub verdict_open : (L → List Instance → Instance × L) → Client L → Result ℕ
  verdict_open select c =
      if ltb 0 c.limiter.tokens
      then (chosen select c.lb w.discovered >>= verdict_at c)
      else err rate_limited

  unfoldable pub verdict : (L → List Instance → Instance × L) → Client L → Result ℕ
  verdict select c = if c.closed then err client_closed else verdict_open select c

  abbrev pub Answers : Result ℕ → Client L → Result ℕ × Client L → Type 0
  Answers v c out = (out.0 ≡ v) × Told service method v c.observed out.1.observed

  invoke_sent-Answers :
      (key : Bytes) (r : Result ℕ) (c : Client L)
      → Answers r c (invoke_sent w service method key r c)
  unfolding invoke_sent
  invoke_sent-Answers key (err e) c = (refl, (w.elapsed, refl))
  invoke_sent-Answers key (ok future) c = (refl, refl)

  invoke_marshalled-Answers :
      (key : Bytes) (conn : ℕ) (b : Result Bytes) (c : Client L)
      → Answers
          (b >>= λ body. w.sent conn (request service method c.codec_type body))
          c
          (invoke_marshalled w service method key conn b c)
  unfolding invoke_marshalled
  invoke_marshalled-Answers key conn (err e) c = (refl, (0, refl))
  invoke_marshalled-Answers key conn (ok body) c = invoke_sent-Answers key _ c

  invoke_acquired-Answers :
      (key : Bytes) (r : Result ℕ) (c : Client L)
      → Answers
          (deliver w service method c.codec_type r)
          c
          (invoke_acquired w service method key r c)
  unfolding invoke_acquired deliver
  invoke_acquired-Answers key (err e) c = (refl, (0, refl))
  invoke_acquired-Answers key (ok conn) c = invoke_marshalled-Answers key conn w.body c

  invoke_let-Answers :
      (key addr : Bytes) (c : Client L)
      → Answers
          (deliver w service method c.codec_type
            (acquire w.context w.dead w.dialled (pool_of addr c)).0)
          c
          (invoke_let w service method key addr c)
  unfolding invoke_let
  invoke_let-Answers key addr c =
      let r = acquire w.context w.dead w.dialled (pool_of addr c) in
      invoke_acquired-Answers key r.0 (set_pool addr r.1 c)

  invoke_at-Answers :
      (addr : Bytes) (c : Client L)
      → Answers (verdict_at c addr) c (invoke_at w service method addr c)
  unfolding invoke_at verdict_at pool_of
  invoke_at-Answers addr c =
      let key = breaker_key service addr in
      let r = allow c.breaker_config w.now (breaker_of key w.now c) in
      elim (Bool-cases r.0) [
        | inl lets ↦ rw lets (invoke_let-Answers key addr (set_breaker key r.1 c))
        | inr refuses ↦ rw refuses (refl, (0, refl))
      ]

  invoke_addressed-Answers :
      (a : Result Bytes) (c : Client L)
      → Answers (a >>= verdict_at c) c (invoke_addressed w service method a c)
  unfolding invoke_addressed
  invoke_addressed-Answers (err e) c = (refl, (0, refl))
  invoke_addressed-Answers (ok addr) c = invoke_at-Answers addr c

  -- The balancer's state is not read after the choice.
  invoke_chosen-Answers :
      (select : L → List Instance → Instance × L) (d : Result (List Instance)) (c : Client L)
      → Answers
          (chosen select c.lb d >>= verdict_at c)
          c
          (let a = select_addr select d c in invoke_addressed w service method a.0 a.1)
  unfolding select_addr chosen verdict_at breaker_of pool_of
  invoke_chosen-Answers select (err e) c = invoke_addressed-Answers (err e) c
  invoke_chosen-Answers select (ok []) c = invoke_addressed-Answers (err no_instance) c
  invoke_chosen-Answers select (ok (i ∷ is)) c =
      invoke_addressed-Answers (address_of (select c.lb (i ∷ is)).0)
        (record c { lb = (select c.lb (i ∷ is)).1 })

  invoke_limited-Answers :
      (select : L → List Instance → Instance × L) (c : Client L) (t : TokenBucket)
      → Answers
          (chosen select c.lb w.discovered >>= verdict_at c)
          c
          (invoke_limited select w service method (record c { limiter = t }))
  unfolding invoke_limited verdict_at breaker_of pool_of
  invoke_limited-Answers select c t =
      invoke_chosen-Answers select w.discovered (record c { limiter = t })

  -- An open client, from the limiter on.
  unfoldable from_limiter : (L → List Instance → Instance × L) → Client L → Result ℕ × Client L
  from_limiter select c =
      let r = limiter_allow c.limiter in
      let c' = record c { limiter = r.1 } in
      if r.0
      then invoke_limited select w service method c'
      else refuse service method 0 rate_limited c'

  from_limiter-Answers :
      (select : L → List Instance → Instance × L) (c : Client L)
      → Answers (verdict_open select c) c (from_limiter select c)
  unfolding from_limiter verdict_open limiter_allow
  from_limiter-Answers select c = elim (Bool-cases (ltb 0 c.limiter.tokens)) [
    | inl some_left ↦ rw some_left (invoke_limited-Answers select c _)
    | inr none_left ↦ rw none_left (refl, (0, refl))
  ]

  closed_or :
      (b : Bool) (c : Client L) (out : Result ℕ × Client L) (v : Result ℕ)
      → Answers v c out
      → (let r = if b then (err client_closed, c) else out in
          let u = if b then err client_closed else v in
          (r.0 ≡ u) × (if b then (r.1 ≡ c) else Told service method u c.observed r.1.observed))
  closed_or true c out v h = (refl, refl)
  closed_or false c out v h = h

  -- InvokeAsync's answer is that of its first guard that refuses, in the order closed, rate, discovery
  -- and choice of an address, breaker, connection, encoding, sending; and the future if none does.
  -- A closed client is left as it is; every other error is told to the metrics as one failed call,
  -- and a call that was sent is not told before it ends.
  pub invoke_async-Answers :
      (select : L → List Instance → Instance × L) (c : Client L)
      → ((invoke_async select w service method c).0 ≡ verdict select c)
        × (if c.closed
            then ((invoke_async select w service method c).1 ≡ c)
            else Told service method
                (verdict select c)
                c.observed
                (invoke_async select w service method c).1.observed)
  unfolding invoke_async verdict from_limiter
  invoke_async-Answers select c =
      closed_or c.closed c (from_limiter select c) (verdict_open select c)
        (from_limiter-Answers select c)
