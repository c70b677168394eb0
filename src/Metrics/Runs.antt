-- ===== src/Metrics/Runs.antt =====
-- Runs of the histogram.
use kama_rpc_go.Base.{ℕ, ◌≡◌, refl, Bool, true, false, List, [], ◌∷◌}
use kama_rpc_go.Metrics.{new_method_metrics, bucket_index, observe, percentile_us}
use kama_rpc_go.Metrics.Quantiles.{observed}

abbrev sample_calls : List (ℕ × Bool)
sample_calls = (12, false) ∷ (700, true) ∷ (7, false) ∷ (20000000, false) ∷ []

sample_count : ((observed sample_calls).count ≡ 4) × ((observed sample_calls).errors ≡ 1)
unfolding observed observe new_method_metrics
sample_count = (refl, refl)

overflow : bucket_index 20000000 ≡ 17
unfolding bucket_index
overflow = refl

-- The median of four calls is the second.
median : percentile_us (observed sample_calls).buckets (observed sample_calls).count 2 ≡ 20
unfolding percentile_us observed observe new_method_metrics bucket_index
median = refl
