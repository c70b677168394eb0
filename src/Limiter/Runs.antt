-- ===== src/Limiter/Runs.antt =====
-- Runs of the token bucket, and the theorems at inputs.
use kama_rpc_go.Base.{◌+◌, ◌*◌, ◌≤◌, ◌≡◌, refl, arith, List, [], ◌∷◌}
use kama_rpc_go.Limiter.{TokenBucket, new_token_bucket, allow, refill}
use kama_rpc_go.Limiter.Bounds.{IsBucket, Event, call, second, run, seconds, run_bound}

abbrev two : TokenBucket
two = record { tokens = 2; rate = 2 }

new_run : new_token_bucket 2 ≡ two
unfolding new_token_bucket
new_run = refl

abbrev sample_events : List Event
sample_events = call ∷ call ∷ call ∷ second ∷ call ∷ []

sample_run : run two sample_events ≡ (3, record { tokens = 1; rate = 2 })
unfolding run allow refill
sample_run = refl

two-IsBucket : IsBucket two
two-IsBucket = record { within = omega arith }

run_bound_example :
    ((run two sample_events).0 + (run two sample_events).1.tokens ≤ 2 + seconds sample_events * 2)
    × IsBucket (run two sample_events).1
run_bound_example = run_bound two sample_events two-IsBucket
