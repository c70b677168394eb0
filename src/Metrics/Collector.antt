-- ===== src/Metrics/Collector.antt =====
-- internal/core/metrics/metrics.go, Collector: the metrics of each method that was called, and the
-- snapshot of all. Concurrent calls of Observe only add to counters, so that each is one step.
-- What the snapshot tells in milliseconds as a float is in microseconds here, and the average is
-- the pair that is divided. The map's order, which Go leaves open, is that of the list.
mod Entries
mod Stats
pub mod Snapshots
mod Runs
use kama_rpc_go.Base.{
  ℕ, zero, suc, ◌/◌, ltb, if◌then◌else◌, List, [], ◌∷◌, map, Bytes, get_elem?, Option, none, some,
  bytes_eq, pair_eq, lookup, insert,
}
use kama_rpc_go.Metrics.{
  Observation, MethodMetrics, bucket_count, new_method_metrics, observe, bound_us, percentile_us,
}

abbrev pub MethodKey : Type 0
MethodKey = Bytes × Bytes

abbrev pub Collector : Type 0
Collector = List (MethodKey × MethodMetrics)

abbrev pub key_of : Observation → MethodKey
key_of o = (o.service, o.method)

-- methodFor: the metrics that are there, or new ones; Observe then changes them in place.
unfoldable pub method_for : Option MethodMetrics → MethodMetrics
method_for none = new_method_metrics
method_for (some m) = m

-- Observe; the duration is in nanoseconds.
unfoldable pub observe_call : Observation → Collector → Collector
unfolding method_for
observe_call o c =
    insert (key_of o) (observe (o.elapsed / 1000) o.failed (method_for (lookup (key_of o) c))) c

pub record MethodStat : Type 0 where
  pub service : Bytes
  pub method : Bytes
  pub count : ℕ
  pub errors : ℕ
  pub avg : ℕ × ℕ
  pub p50_us : ℕ
  pub p90_us : ℕ
  pub p99_us : ℕ
  pub max_seen_us : ℕ

unfoldable pub count_at : ℕ → List ℕ → ℕ
count_at i counts = elim (get_elem? counts i) [ some n ↦ n | none ↦ 0 ]

-- The loop of maxSeenMS, below index `i`.
unfoldable pub max_index : ℕ → List ℕ → Option ℕ
unfolding count_at
max_index zero counts = none
max_index (suc i) counts =
    let lower = max_index i counts in if ltb 0 (count_at i counts) then some i else lower

unfoldable pub bound_or_zero : Option ℕ → ℕ
bound_or_zero none = 0
bound_or_zero (some i) = bound_us i

unfoldable pub max_seen_us : List ℕ → ℕ
unfolding max_index bound_or_zero
max_seen_us counts = bound_or_zero (max_index bucket_count counts)

-- A stat without calls, and with the rest filled in.
unfoldable pub bare_stat : MethodKey → MethodMetrics → MethodStat
bare_stat k m = record {
  service = k.0;
  method = k.1;
  count = m.count;
  errors = m.errors;
  avg = (0, 1);
  p50_us = 0;
  p90_us = 0;
  p99_us = 0;
  max_seen_us = 0;
}

unfoldable pub full_stat : (ℕ → ℕ → ℕ) → MethodKey → MethodMetrics → MethodStat
unfolding max_seen_us
full_stat rank k m = record {
  service = k.0;
  method = k.1;
  count = m.count;
  errors = m.errors;
  avg = (m.total_us, m.count);
  p50_us = percentile_us m.buckets m.count (rank m.count 50);
  p90_us = percentile_us m.buckets m.count (rank m.count 90);
  p99_us = percentile_us m.buckets m.count (rank m.count 99);
  max_seen_us = max_seen_us m.buckets;
}

unfoldable pub stat_of : (ℕ → ℕ → ℕ) → MethodKey × MethodMetrics → MethodStat
unfolding full_stat bare_stat
stat_of rank (k, m) = if ltb 0 m.count then full_stat rank k m else bare_stat k m

-- Snapshot; `rank total p` is uint64(float64(total) * p / 100).
unfoldable pub snapshot : (ℕ → ℕ → ℕ) → Collector → List MethodStat
unfolding stat_of
snapshot rank c = map (stat_of rank) c
