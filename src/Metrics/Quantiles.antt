-- ===== src/Metrics/Quantiles.antt =====
-- What a quantile of the histogram says of the durations that were observed.
use kama_rpc_go.Base.{
  ℕ, zero, suc, ◌+◌, ◌^◌, ◌≤◌, ◌<◌, ◌≡◌, refl, arith, ltb, leb, ◌==◌, if◌then◌else◌, Bool, false,
  List, [], ◌∷◌, length, take, get_elem?, some, replicate,
}
use kama_rpc_go.Metrics.{
  bucket_bounds_us, bucket_count, MethodMetrics, new_method_metrics, bucket_index_from,
  bucket_index, observe, percentile_index, bound_us, percentile_us,
}
use kama_rpc_go.Metrics.Lists.{
  sum, sum-take-le, length-add_at, sum-add_at, sum-take-add_at, Reached, percentile_index-Reached,
}

-- The metrics after these calls, the last one first: each with its duration and its failure.
unfoldable pub observed : List (ℕ × Bool) → MethodMetrics
observed [] = new_method_metrics
observed ((us, failed) ∷ calls) = observe us failed (observed calls)

-- Upwards from `lo` on.
abbrev Upwards : ℕ → List ℕ → Type 0
Upwards lo [] = Unit {0}
Upwards lo (n ∷ ns) = (lo ≤ n) × Upwards n ns

Upwards-le : (lo k b : ℕ) (ns : List ℕ) → Upwards lo ns → get_elem? ns k ≡ some b → lo ≤ b
Upwards-le lo k b [] u e = absurd (cc)
Upwards-le lo zero b (n ∷ ns) u e = let s : n ≡ b = cc in omega (arith, s, u.0)
Upwards-le lo (suc k) b (n ∷ ns) u e = omega (arith, u.0, Upwards-le n k b ns u.1 e)

bucket_index_from-ge : (i us : ℕ) (ns : List ℕ) → i + length ns ≤ 17 → i ≤ bucket_index_from i ns us
unfolding bucket_index_from
bucket_index_from-ge i us [] h = omega arith
bucket_index_from-ge i us (n ∷ ns) h = ground (arith, bucket_index_from-ge (i + 1) us ns)

-- A duration is in a bucket up to the k-th if it is within the k-th bound.
bucket_index_from-leb :
    (lo i k b us : ℕ) (ns : List ℕ)
    → Upwards lo ns
    → i + length ns ≤ 17
    → get_elem? ns k ≡ some b
    → ltb (bucket_index_from i ns us) (suc (i + k)) ≡ leb us b
unfolding bucket_index_from
bucket_index_from-leb lo i k b us [] u h e = absurd (cc)
bucket_index_from-leb lo i zero b us (n ∷ ns) u h e =
    let s : n ≡ b = cc in ground (arith, s, bucket_index_from-ge (i + 1) us ns)
bucket_index_from-leb lo i (suc k) b us (n ∷ ns) u h e = ground (
  arith,
  Upwards-le n k b ns u.1 e,
  bucket_index_from-leb n (i + 1) k b us ns u.1 (omega arith) e,
)

bucket_index_from-lt :
    (i us : ℕ) (ns : List ℕ) → i + length ns ≤ 17 → bucket_index_from i ns us < 18
unfolding bucket_index_from
bucket_index_from-lt i us [] h = omega arith
bucket_index_from-lt i us (n ∷ ns) h = ground (arith, bucket_index_from-lt (i + 1) us ns)

bucket_index-lt : (us : ℕ) → bucket_index us < 18
unfolding bucket_index
bucket_index-lt us = bucket_index_from-lt 0 us bucket_bounds_us (omega arith)

-- The calls in the first k buckets, and those of at most a duration.
pub below : ℕ → List (ℕ × Bool) → ℕ
below k [] = 0
below k ((us, failed) ∷ calls) = below k calls + (if ltb (bucket_index us) k then 1 else 0)

unfoldable pub at_most : ℕ → List (ℕ × Bool) → ℕ
at_most b [] = 0
at_most b ((us, failed) ∷ calls) = at_most b calls + (if leb us b then 1 else 0)

below-at_most :
    (k b : ℕ) (calls : List (ℕ × Bool))
    → get_elem? bucket_bounds_us k ≡ some b
    → below (suc k) calls ≡ at_most b calls
unfolding below at_most bucket_index
below-at_most k b [] e = refl
below-at_most k b ((us, failed) ∷ calls) e =
    let ih = below-at_most k b calls e in
    let z : 0 + k ≡ k = omega arith in
    let t =
      rw z at (bucket_index_from-leb 0 0 k b us bucket_bounds_us (omega arith) (omega arith) e) in
    cc (ih, t)

-- What the counters of a method hold.
pub record Counts (calls : List (ℕ × Bool)) (m : MethodMetrics) : Type 0 where
  pub whole : length m.buckets ≡ 18
  pub counted : m.count ≡ length calls
  pub summed : (k : ℕ) → sum (take k m.buckets) ≡ below k calls
  pub total : sum m.buckets ≡ length calls

Counts-new_method_metrics : Counts [] new_method_metrics
unfolding new_method_metrics below sum
Counts-new_method_metrics = record {
  whole = refl;
  counted = refl;
  summed = λ k. sum-zeros k;
  total = refl;
}
  where
    sum-zeros : (k : ℕ) → sum (take k (replicate {A = ℕ} 18 0)) ≡ 0
    sum-zeros k = unfold sum in omega (arith, sum-take-le k (replicate {A = ℕ} 18 0))

Counts-observe :
    (us : ℕ) (failed : Bool) (calls : List (ℕ × Bool)) (m : MethodMetrics)
    → length calls + 1 < 2 ^ 64
    → Counts calls m
    → Counts ((us, failed) ∷ calls) (observe us failed m)
unfolding observe below
Counts-observe us failed calls m small v =
    let i : ℕ = bucket_index us in
    let small' : sum m.buckets + 1 < 2 ^ 64 = omega (arith, v.total) in
    let inside : i < length m.buckets = omega (arith, v.whole, bucket_index-lt us) in
    let more = λ (k : ℕ). sum-take-add_at k i m.buckets inside small' in
    record {
      whole = omega (arith, v.whole, length-add_at i m.buckets);
      counted = omega (arith, v.counted);
      summed = λ k. omega (arith, more k, v.summed k);
      total = omega (arith, v.total, sum-add_at i m.buckets inside small');
    }

pub observed-Counts :
    (calls : List (ℕ × Bool)) → length calls < 2 ^ 64 → Counts calls (observed calls)
unfolding observed
observed-Counts [] small = Counts-new_method_metrics
observed-Counts ((us, failed) ∷ calls) small =
    Counts-observe us failed calls (observed calls) (omega arith)
      (observed-Counts calls (omega arith))

below_mono : (j k : ℕ) (calls : List (ℕ × Bool)) → j ≤ k → below j calls ≤ below k calls
unfolding below
below_mono j k [] h = omega arith
below_mono j k ((us, failed) ∷ calls) h = ground (arith, below_mono j k calls)

-- Bucket k is that of the rank-th shortest call: fewer calls are within each smaller bound, and as
-- many are within its own, if it is not the last bucket, which has none.
pub record IsQuantile (calls : List (ℕ × Bool)) (rank k : ℕ) : Type 0 where
  pub inside : k < bucket_count
  pub least : (j b : ℕ) → j < k → get_elem? bucket_bounds_us j ≡ some b → at_most b calls < rank
  pub enough : (b : ℕ) → get_elem? bucket_bounds_us k ≡ some b → rank ≤ at_most b calls

pub Reached-IsQuantile :
    (calls : List (ℕ × Bool)) (m : MethodMetrics) (rank k : ℕ)
    → Counts calls m
    → Reached 0 m.buckets rank k
    → IsQuantile calls rank k
Reached-IsQuantile calls m rank k v r = record {
  inside = omega (arith, r.inside, v.whole);
  least = λ j b h e.
      omega (arith, r.before, v.summed k, below-at_most j b calls e, below_mono (suc j) k calls);
  enough = λ b e. omega (arith, r.after, v.summed (suc k), below-at_most k b calls e);
}

percentile_us-index :
    (counts : List ℕ) (total rank k : ℕ)
    → 0 < total
    → 0 < rank
    → percentile_index 0 0 counts rank ≡ k
    → percentile_us counts total rank ≡ bound_us k
unfolding percentile_us
percentile_us-index counts total rank k h low e =
    let some_calls : (total == 0) ≡ false = ground arith in
    let positive : (rank == 0) ≡ false = ground arith in rw (some_calls, positive, e)

-- The quantile that percentileMS computes from the histogram of any calls, fewer than 2 ^ 64, is
-- the bound of the bucket in which the call with the rank that it looks for lies.
pub percentile_us-IsQuantile :
    (calls : List (ℕ × Bool)) (rank : ℕ)
    → 0 < rank
    → rank ≤ length calls
    → length calls < 2 ^ 64
    → (k : ℕ) × (percentile_us (observed calls).buckets (observed calls).count rank ≡ bound_us k)
      × IsQuantile calls rank k
percentile_us-IsQuantile calls rank low high small =
    let v = observed-Counts calls small in
    let (k, e, r) =
      percentile_index-Reached 0 0 (observed calls).buckets rank low (omega (arith, v.total))
        (omega (arith, v.total)) in
    (
      k,
      percentile_us-index (observed calls).buckets (observed calls).count rank k
          (omega (arith, v.counted)) low (omega (arith, e)),
      Reached-IsQuantile calls _ rank k v r,
    )
