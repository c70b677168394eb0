-- ===== src/Metrics/Collector/Stats.antt =====
-- The stat of one method, from the metrics of its calls.
use kama_rpc_go.Base.{
  ℕ, zero, suc, ◌+◌, ◌%◌, ◌^◌, ◌<◌, ◌≤◌, ◌≡◌, refl, ap, ap₂, ◌∙◌, arith, ltb, ◌==◌, if◌then◌else◌,
  Bool, true, false, List, [], ◌∷◌, length, take, some, bytes_eq, pair_eq, Bool-cases, inl, inr,
  if_true, if_false, take_all,
}
use kama_rpc_go.Metrics.{
  bucket_count, new_method_metrics, observe, bound_us, at_least_one, percentile_index,
  percentile_us,
}
use kama_rpc_go.Metrics.Lists.{sum, Reached}
use kama_rpc_go.Metrics.Quantiles.{
  observed, observed-Counts, IsQuantile, Reached-IsQuantile, percentile_us-IsQuantile,
}
use kama_rpc_go.Metrics.Collector.{
  MethodKey, MethodStat, count_at, max_index, bound_or_zero, max_seen_us, full_stat,
}

-- The calls that failed, and the sum of all durations.
unfoldable pub failures : List (ℕ × Bool) → ℕ
failures [] = 0
failures ((us, failed) ∷ calls) = if failed then failures calls + 1 else failures calls

unfoldable pub durations : List (ℕ × Bool) → ℕ
durations [] = 0
durations ((us, failed) ∷ calls) = durations calls + us

failures-le : (calls : List (ℕ × Bool)) → failures calls ≤ length calls
unfolding failures
failures-le [] = omega arith
failures-le ((us, failed) ∷ calls) = ground (arith, failures-le calls)

observed-errors :
    (calls : List (ℕ × Bool)) → length calls < 2 ^ 64 → (observed calls).errors ≡ failures calls
unfolding observed observe new_method_metrics failures
observed-errors [] h = refl
observed-errors ((us, true) ∷ calls) h =
    omega (arith, observed-errors calls (omega arith), failures-le calls)
observed-errors ((us, false) ∷ calls) h = observed-errors calls (omega arith)

observed-total : (calls : List (ℕ × Bool)) → (observed calls).total_us ≡ durations calls % 2 ^ 64
unfolding observed observe new_method_metrics durations
observed-total [] = refl
observed-total ((us, failed) ∷ calls) = omega (arith, observed-total calls)

sum-take-suc : (i : ℕ) (ns : List ℕ) → sum (take (suc i) ns) ≡ sum (take i ns) + count_at i ns
unfolding sum count_at
sum-take-suc zero [] = refl
sum-take-suc (suc i) [] = refl
sum-take-suc zero (n ∷ ns) = omega arith
sum-take-suc (suc i) (n ∷ ns) = omega (arith, sum-take-suc i ns)

count_at-inside : (i : ℕ) (ns : List ℕ) → 0 < count_at i ns → i < length ns
unfolding count_at
count_at-inside i [] h = absurd (omega arith)
count_at-inside zero (n ∷ ns) h = omega arith
count_at-inside (suc i) (n ∷ ns) h = omega (arith, count_at-inside i ns h)

-- The greatest bucket with a call is where the calls are complete.
max_index-Reached :
    (i : ℕ) (ns : List ℕ)
    → sum (take i ns) ≡ sum ns
    → 0 < sum ns
    → (k : ℕ) × (max_index i ns ≡ some k) × Reached 0 ns (sum ns) k
unfolding max_index sum
max_index-Reached zero ns e h = absurd (omega arith)
max_index-Reached (suc i) ns e h =
    let last = sum-take-suc i ns in
    elim (Bool-cases (ltb 0 (count_at i ns))) [
      | inl here ↦
          let some_calls : 0 < count_at i ns = ground arith in
          (
            i,
            if_true _ _ here,
            record {
              inside = count_at-inside i ns some_calls;
              before = omega arith;
              after = omega arith;
            },
          )
      | inr empty ↦
          let (k, same, r) = max_index-Reached i ns (ground arith) h in
          (k, if_false _ _ empty ∙ same, r)
    ]

-- A value that is a bound of the bucket with a rank.
abbrev pub Quantile : List (ℕ × Bool) → ℕ → ℕ → Type 0
Quantile calls rank us = (k : ℕ) × (us ≡ bound_us k) × IsQuantile calls rank k

max_seen-Quantile :
    (calls : List (ℕ × Bool))
    → 0 < length calls
    → length calls < 2 ^ 64
    → Quantile calls (length calls) (max_seen_us (observed calls).buckets)
unfolding max_seen_us bound_or_zero
max_seen-Quantile calls h small =
    let v = observed-Counts calls small in
    let (k, e, r) =
      max_index-Reached bucket_count (observed calls).buckets
        (ap sum (take_all bucket_count (observed calls).buckets (omega (arith, v.whole))))
        (omega (arith, v.total)) in
    (
      k,
      ap bound_or_zero e,
      Reached-IsQuantile calls (observed calls) (length calls) k v (rw v.total at r),
    )

at_least_one-twice : (rank : ℕ) → at_least_one rank ≡ at_least_one (at_least_one rank)
unfolding at_least_one
at_least_one-twice rank = ground arith

percentile_us-at_least_one :
    (counts : List ℕ) (total rank : ℕ)
    → percentile_us counts total rank ≡ percentile_us counts total (at_least_one rank)
unfolding percentile_us
percentile_us-at_least_one counts total rank =
    ap (λ r. if total == 0 then 0 else bound_us (percentile_index 0 0 counts r))
      (at_least_one-twice rank)

percentile_us-Quantile :
    (calls : List (ℕ × Bool)) (rank : ℕ)
    → 0 < length calls
    → length calls < 2 ^ 64
    → rank ≤ length calls
    → Quantile calls
        (at_least_one rank)
        (percentile_us (observed calls).buckets (observed calls).count rank)
percentile_us-Quantile calls rank h small below =
    let positive : 0 < at_least_one rank = unfold at_least_one in ground arith in
    let within : at_least_one rank ≤ length calls = unfold at_least_one in ground arith in
    let (k, e, q) = percentile_us-IsQuantile calls (at_least_one rank) positive within small in
    (k, percentile_us-at_least_one _ _ rank ∙ e, q)

-- A stat tells of these calls.
pub record Tells (rank : ℕ → ℕ → ℕ) (calls : List (ℕ × Bool)) (st : MethodStat) : Type 0 where
  pub called : 0 < length calls
  pub counted : st.count ≡ length calls
  pub failed : st.errors ≡ failures calls
  pub averaged : st.avg ≡ (durations calls % 2 ^ 64, length calls)
  pub half : Quantile calls (at_least_one (rank (length calls) 50)) st.p50_us
  pub nine_tenths : Quantile calls (at_least_one (rank (length calls) 90)) st.p90_us
  pub all_but_some : Quantile calls (at_least_one (rank (length calls) 99)) st.p99_us
  pub slowest : Quantile calls (length calls) st.max_seen_us

stat_quantile :
    (rank : ℕ → ℕ → ℕ) (calls : List (ℕ × Bool)) (p : ℕ)
    → 0 < length calls
    → length calls < 2 ^ 64
    → rank (length calls) p ≤ length calls
    → Quantile calls (at_least_one (rank (length calls) p)) (
        percentile_us
          (observed calls).buckets
          (observed calls).count
          (rank (observed calls).count p))
stat_quantile rank calls p h small fits =
    let (k, e, q) = percentile_us-Quantile calls (rank (length calls) p) h small fits in
    let c = (observed-Counts calls small).counted in
    (k, ap (λ n. percentile_us (observed calls).buckets (observed calls).count (rank n p)) c ∙ e, q)

pub full_stat-Tells :
    (rank : ℕ → ℕ → ℕ) (k : MethodKey) (calls : List (ℕ × Bool))
    → 0 < length calls
    → length calls < 2 ^ 64
    → ((n p : ℕ) → p ≤ 100 → rank n p ≤ n)
    → Tells rank calls (full_stat rank k (observed calls))
unfolding full_stat
full_stat-Tells rank k calls h small ranks =
    let c = (observed-Counts calls small).counted in
    record {
      called = h;
      counted = c;
      failed = observed-errors calls small;
      averaged = ap₂ (λ (a b : ℕ). (a, b)) (observed-total calls) c;
      half = stat_quantile rank calls 50 h small (ranks (length calls) 50 (omega arith));
      nine_tenths = stat_quantile rank calls 90 h small (ranks (length calls) 90 (omega arith));
      all_but_some = stat_quantile rank calls 99 h small (ranks (length calls) 99 (omega arith));
      slowest = max_seen-Quantile calls h small;
    }
