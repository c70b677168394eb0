-- ===== src/Metrics/Lists.antt =====
-- Sums of the first buckets.
use kama_rpc_go.Base.{
  leb→le, ℕ, zero, suc, ◌+◌, ◌%◌, ◌^◌, ◌≤◌, ◌<◌, ◌≡◌, refl, arith, ltb, leb, if◌then◌else◌, List,
  [], ◌∷◌, length, take, Bool-cases, inl, inr,
}
use kama_rpc_go.Metrics.{add_at, percentile_index}

unfoldable pub sum : List ℕ → ℕ
sum [] = 0
sum (n ∷ ns) = n + sum ns

pub sum-take-le : (k : ℕ) (ns : List ℕ) → sum (take k ns) ≤ sum ns
unfolding sum
sum-take-le zero ns = omega arith
sum-take-le (suc k) [] = omega arith
sum-take-le (suc k) (n ∷ ns) = omega (arith, sum-take-le k ns)

pub length-add_at : (i : ℕ) (ns : List ℕ) → length (add_at i ns) ≡ length ns
length-add_at i [] = refl
length-add_at zero (n ∷ ns) = refl
length-add_at (suc i) (n ∷ ns) = omega (arith, length-add_at i ns)

-- One more in bucket i is one more in the sums that reach beyond it.
pub sum-take-add_at :
    (k i : ℕ) (ns : List ℕ)
    → i < length ns
    → sum ns + 1 < 2 ^ 64
    → sum (take k (add_at i ns)) ≡ sum (take k ns) + (if ltb i k then 1 else 0)
unfolding sum
sum-take-add_at k i [] h small = absurd (omega arith)
sum-take-add_at zero zero (n ∷ ns) h small = ground arith
sum-take-add_at zero (suc i) (n ∷ ns) h small = ground arith
sum-take-add_at (suc k) zero (n ∷ ns) h small = ground arith
sum-take-add_at (suc k) (suc i) (n ∷ ns) h small = ground (arith, sum-take-add_at k i ns)

pub sum-add_at :
    (i : ℕ) (ns : List ℕ) → i < length ns → sum ns + 1 < 2 ^ 64 → sum (add_at i ns) ≡ sum ns + 1
unfolding sum
sum-add_at i [] h small = absurd (omega arith)
sum-add_at zero (n ∷ ns) h small = omega arith
sum-add_at (suc i) (n ∷ ns) h small = omega (arith, sum-add_at i ns)

-- Bucket k is the first up to which `ns` sums up to `target`, from `cum` on.
pub record Reached (cum : ℕ) (ns : List ℕ) (target k : ℕ) : Type 0 where
  pub inside : k < length ns
  pub before : cum + sum (take k ns) < target
  pub after : target ≤ cum + sum (take (suc k) ns)

Reached-later :
    (j i cum n : ℕ) (ns : List ℕ) (target : ℕ)
    → (k : ℕ) × (j ≡ i + 1 + k) × Reached (cum + n) ns target k
    → (k : ℕ) × (j ≡ i + k) × Reached cum (n ∷ ns) target k
unfolding sum
Reached-later j i cum n ns target (k, e, r) = (
  suc k,
  omega arith,
  record {
    inside = omega (arith, r.inside);
    before = omega (arith, r.before);
    after = omega (arith, r.after);
  },
)

pub percentile_index-Reached :
    (i cum : ℕ) (ns : List ℕ) (target : ℕ)
    → cum < target
    → target ≤ cum + sum ns
    → cum + sum ns < 2 ^ 64
    → (k : ℕ) × (percentile_index i cum ns target ≡ i + k) × Reached cum ns target k
unfolding percentile_index sum
percentile_index-Reached i cum [] target low high small = absurd (omega arith)
percentile_index-Reached i cum (n ∷ ns) target low high small =
    let exact : (cum + n) % 2 ^ 64 ≡ cum + n = omega arith in
    elim (Bool-cases (leb target (cum + n))) [
      | inl stop ↦
          let h = leb→le _ _ stop in
          rw (exact, stop)
            (
              0,
              omega arith,
              record { inside = omega arith; before = omega arith; after = omega arith },
            )
      | inr on ↦
          rw (exact, on)
            (Reached-later _ i cum n ns target (
              percentile_index-Reached (i + 1) (cum + n) ns target (ground arith) (omega arith)
                (omega arith)))
    ]
