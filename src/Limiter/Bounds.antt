-- ===== src/Limiter/Bounds.antt =====
-- How many calls a token bucket lets through.
use kama_rpc_go.Base.{
  ℕ, zero, suc, ◌-◌, ◌+◌, ◌*◌, ◌≤◌, ◌≡◌, arith, Bool, true, false, List, [], ◌∷◌, min,
}
use kama_rpc_go.Limiter.{TokenBucket, refill, allow}

-- A call of Allow, or the second's refill, in the order in which the lock serves them.
pub data Event : Type 0 where
  call second : Event

abbrev count_true : Bool → ℕ → ℕ
count_true true n = suc n
count_true false n = n

-- The calls that are let through, and the bucket after the events.
unfoldable pub run : TokenBucket → List Event → ℕ × TokenBucket
run tb [] = (0, tb)
run tb (call ∷ es) = let r = allow tb in let rest = run r.1 es in (count_true r.0 rest.0, rest.1)
run tb (second ∷ es) = run (refill tb) es

abbrev pub seconds : List Event → ℕ
seconds [] = 0
seconds (call ∷ es) = seconds es
seconds (second ∷ es) = suc (seconds es)

abbrev pub calls : ℕ → List Event
calls zero = []
calls (suc n) = call ∷ calls n

-- The bucket never holds more than its rate.
pub record IsBucket (tb : TokenBucket) : Type 0 where
  pub within : tb.tokens ≤ tb.rate

allow-IsBucket :
    (tb : TokenBucket) → IsBucket tb → IsBucket (allow tb).1 × ((allow tb).1.rate ≡ tb.rate)
unfolding allow
allow-IsBucket tb v = ground arith

-- Over any events with k refills among them, at most the tokens at hand and k times the rate
-- are let through, and the bucket stays within its rate.
pub run_bound :
    (tb : TokenBucket) (es : List Event)
    → IsBucket tb
    → ((run tb es).0 + (run tb es).1.tokens ≤ tb.tokens + seconds es * tb.rate)
      × IsBucket (run tb es).1
unfolding run allow refill
run_bound tb [] v = (omega arith, v)
run_bound tb (call ∷ es) v = ground (arith, run_bound (allow tb).1 es)
run_bound tb (second ∷ es) v = ground (arith, run_bound (refill tb) es)

-- Between two refills the first calls are let through, as many as there are tokens, and no more.
pub run-calls :
    (n : ℕ) (tb : TokenBucket)
    → run tb (calls n) ≡ (min n tb.tokens, record tb { tokens = tb.tokens - n })
unfolding run allow
run-calls zero tb = ground arith
run-calls (suc n) tb = ground (arith, run-calls n (allow tb).1)
