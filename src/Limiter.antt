-- ===== src/Limiter.antt =====
-- internal/core/limiter/token_bucket.go. The lock makes each method one step; `refill` is a round
-- of the goroutine that fills the bucket every second. The rate is not negative.
pub mod Bounds
mod Runs
use kama_rpc_go.Base.{ℕ, ◌-◌, ◌+◌, ltb, if◌then◌else◌, Bool, true, false, List, [], ◌∷◌}

pub record TokenBucket : Type 0 where
  pub tokens : ℕ
  pub rate : ℕ

unfoldable pub new_token_bucket : ℕ → TokenBucket
new_token_bucket rate = record { tokens = rate; rate = rate }

unfoldable pub refill : TokenBucket → TokenBucket
refill tb = record tb { tokens = tb.rate }

unfoldable pub allow : TokenBucket → Bool × TokenBucket
allow tb = if ltb 0 tb.tokens then (true, record tb { tokens = tb.tokens - 1 }) else (false, tb)
