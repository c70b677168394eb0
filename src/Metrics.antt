-- ===== src/Metrics.antt =====
-- internal/core/metrics/metrics.go: the histogram of one method. There are no floats: a quantile
-- is given in microseconds, and uint64(float64(total) * p) is an argument, `rank`. The map from
-- methods to their metrics is an association list, and a nil Collector is left out.
mod Lists
pub mod Quantiles
pub mod Collector
mod Runs
use kama_rpc_go.Base.{
  ℕ, zero, suc, ◌+◌, ◌-◌, ◌%◌, ◌^◌, ltb, leb, ◌==◌, if◌then◌else◌, Bool, true, false, List, [], ◌∷◌,
  Bytes, length, get_elem?, Option, none, some, replicate,
}

-- The arguments of Collector.Observe: service, method, time, and whether the call failed.
pub record Observation : Type 0 where
  pub service : Bytes
  pub method : Bytes
  pub elapsed : ℕ
  pub failed : Bool

abbrev pub bucket_bounds_us : List ℕ
bucket_bounds_us =
    10 ∷ 20 ∷ 50 ∷ 100 ∷ 200 ∷ 500 ∷ 1000 ∷ 2000 ∷ 5000 ∷ 10000 ∷ 20000 ∷ 50000 ∷ 100000 ∷ 200000
    ∷ 500000 ∷ 1000000 ∷ 10000000 ∷ []

abbrev pub bucket_count : ℕ
bucket_count = 18

pub record MethodMetrics : Type 0 where
  pub count : ℕ
  pub errors : ℕ
  pub total_us : ℕ
  pub buckets : List ℕ

unfoldable pub new_method_metrics : MethodMetrics
new_method_metrics = record {
  count = 0;
  errors = 0;
  total_us = 0;
  buckets = replicate bucket_count 0;
}

-- The loop over the bounds from index `i` on.
unfoldable pub bucket_index_from : ℕ → List ℕ → ℕ → ℕ
bucket_index_from i [] us = bucket_count - 1
bucket_index_from i (bound ∷ bounds) us =
    let later = bucket_index_from (i + 1) bounds us in if leb us bound then i else later

unfoldable pub bucket_index : ℕ → ℕ
unfolding bucket_index_from
bucket_index us = bucket_index_from 0 bucket_bounds_us us

-- atomic.Uint64's Add(1), for a counter and for the counter at an index.
abbrev pub add_one : ℕ → ℕ
add_one n = (n + 1) % 2 ^ 64

abbrev pub add_at : ℕ → List ℕ → List ℕ
add_at i [] = []
add_at zero (n ∷ ns) = add_one n ∷ ns
add_at (suc i) (n ∷ ns) = n ∷ add_at i ns

-- Observe, once the metrics of the method are found, for a duration of `us` microseconds; a
-- negative one counts as 0.
unfoldable pub observe : ℕ → Bool → MethodMetrics → MethodMetrics
observe us failed m = record m {
  count = add_one m.count;
  errors = if failed then add_one m.errors else m.errors;
  total_us = (m.total_us + us) % 2 ^ 64;
  buckets = add_at (bucket_index us) m.buckets;
}

-- The loop of percentileMS: the index at which it returns. `cum` is what it has summed up.
unfoldable pub percentile_index : ℕ → ℕ → List ℕ → ℕ → ℕ
percentile_index i cum [] target = bucket_count - 1
percentile_index i cum (n ∷ counts) target =
    let later = percentile_index (i + 1) ((cum + n) % 2 ^ 64) counts target in
    if leb target ((cum + n) % 2 ^ 64) then i else later

-- The bound of a bucket; the last bucket has that of the one before it.
unfoldable pub bound_us : ℕ → ℕ
bound_us i = elim (get_elem? bucket_bounds_us i) [ some b ↦ b | none ↦ 10000000 ]

-- `if target == 0 { target = 1 }`
unfoldable pub at_least_one : ℕ → ℕ
at_least_one target = if target == 0 then 1 else target

unfoldable pub percentile_us : List ℕ → ℕ → ℕ → ℕ
unfolding bound_us percentile_index at_least_one
percentile_us counts total rank =
    if total == 0 then 0 else bound_us (percentile_index 0 0 counts (at_least_one rank))
