-- ===== src/Metrics/Collector/Runs.antt =====
-- A run of the collector, and its theorem at an input.
use kama_rpc_go.Base.{
  ℕ, ◌*◌, ◌/◌, ◌≤◌, ◌≡◌, refl, arith, Bool, true, false, List, [], ◌∷◌, map, Bytes, codes, bytes_eq,
  pair_eq, lookup, insert,
}
use kama_rpc_go.Metrics.{Observation, new_method_metrics, observe, bucket_index}
use kama_rpc_go.Metrics.Collector.{
  MethodStat, method_for, observe_call, full_stat, stat_of, snapshot, max_seen_us, max_index,
  bound_or_zero, count_at,
}
use kama_rpc_go.Metrics.{percentile_us, percentile_index, bound_us, at_least_one}
use kama_rpc_go.Metrics.Collector.Entries.{collected}
use kama_rpc_go.Metrics.Collector.Snapshots.{TellsAll, snapshot-TellsAll}
use native.Mathlib.Nat.{mul-le-mul_left}

abbrev call : Bytes → ℕ → Bool → Observation
call method elapsed failed = record {
  service = codes "S";
  method = method;
  elapsed = elapsed;
  failed = failed;
}

abbrev calls : List Observation
calls =
    call (codes "M") 15000 false ∷ call (codes "N") 7000 true ∷ call (codes "M") 700000 true ∷ []

abbrev rank : ℕ → ℕ → ℕ
rank total p = total * p / 100

ranks : (n p : ℕ) → p ≤ 100 → rank n p ≤ n
ranks n p h = omega (arith, mul-le-mul_left n h)

slowest_run :
    map {B = ℕ × ℕ × ℕ × ℕ}
      (λ (st : MethodStat). (st.count, st.errors, st.p50_us, st.max_seen_us))
      (snapshot rank (collected calls))
    ≡ (2, 1, 20, 1000) ∷ (1, 1, 10, 10) ∷ []
unfolding snapshot stat_of full_stat collected observe_call method_for lookup insert observe
    new_method_metrics bucket_index max_seen_us max_index bound_or_zero count_at percentile_us
    percentile_index bound_us at_least_one
slowest_run = refl

snapshot-TellsAll_example : TellsAll rank calls (snapshot rank (collected calls))
snapshot-TellsAll_example = snapshot-TellsAll rank calls (omega arith) ranks
