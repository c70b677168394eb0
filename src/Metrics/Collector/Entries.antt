-- ===== src/Metrics/Collector/Entries.antt =====
-- What the collector holds for a method: the metrics of that method's calls alone.
use kama_rpc_go.Base.{
  ℕ, ◌/◌, ◌<◌, ◌≤◌, ◌≡◌, refl, sym, ap, ◌∙◌, arith, if◌then◌else◌, Bool, true, List, [], ◌∷◌,
  length, Option, none, some, bytes_eq, pair_eq, lookup, lookup-insert, Bool-cases, inl, inr,
  if_true, if_false,
}
use kama_rpc_go.Base.Keys.{Unique, insert-Unique, Mem-lookup, lookup-Mem}
use kama_rpc_go.Metrics.{Observation, MethodMetrics, observe}
use kama_rpc_go.Metrics.Quantiles.{observed}
use kama_rpc_go.Metrics.Collector.{MethodKey, Collector, key_of, method_for, observe_call}
use mathlib.Core.List.{Memᴰ}

-- The collector after these calls of Observe, the last one first.
unfoldable pub collected : List Observation → Collector
collected [] = []
collected (o ∷ os) = observe_call o (collected os)

abbrev same_key : MethodKey → MethodKey → Bool
same_key j k = pair_eq.beq j k

-- The calls of one method, in microseconds.
unfoldable pub own : MethodKey → List Observation → List (ℕ × Bool)
own k [] = []
own k (o ∷ os) =
    let rest = own k os in
    if same_key (key_of o) k then (o.elapsed / 1000, o.failed) ∷ rest else rest

abbrev pub metrics_of : List (ℕ × Bool) → Option MethodMetrics
metrics_of [] = none
metrics_of (call ∷ calls) = some (observed (call ∷ calls))

method_for-metrics_of : (calls : List (ℕ × Bool)) → method_for (metrics_of calls) ≡ observed calls
unfolding method_for observed
method_for-metrics_of [] = refl
method_for-metrics_of ((us, failed) ∷ calls) = refl

pub lookup-collected :
    (os : List Observation) (k : MethodKey) → lookup k (collected os) ≡ metrics_of (own k os)
unfolding collected own lookup observe_call observed
lookup-collected [] k = refl
lookup-collected (o ∷ os) k = elim (Bool-cases (same_key (key_of o) k)) [
  | inl same ↦
      let here : key_of o ≡ k = (pair_eq.beq_iff (key_of o) k).0 same in
      let before : method_for (lookup (key_of o) (collected os)) ≡ observed (own k os) =
        ap method_for (lookup-collected os (key_of o) ∙ ap (λ j. metrics_of (own j os)) here)
        ∙ method_for-metrics_of (own k os) in
      lookup-insert (key_of o) k _ (collected os)
      ∙ if_true _ _ same
      ∙ ap (λ m. some (observe (o.elapsed / 1000) o.failed m)) before
      ∙ sym (ap metrics_of (if_true ((o.elapsed / 1000, o.failed) ∷ own k os) (own k os) same))
  | inr differs ↦
      lookup-insert (key_of o) k _ (collected os)
      ∙ if_false _ _ differs
      ∙ lookup-collected os k
      ∙ sym (ap metrics_of (if_false ((o.elapsed / 1000, o.failed) ∷ own k os) (own k os) differs))
]

pub collected-Unique : (os : List Observation) → Unique (collected os)
unfolding collected observe_call
collected-Unique [] = tt
collected-Unique (o ∷ os) = insert-Unique (key_of o) _ (collected os) (collected-Unique os)

metrics_of-some :
    (calls : List (ℕ × Bool)) (m : MethodMetrics)
    → metrics_of calls ≡ some m
    → (m ≡ observed calls) × (0 < length calls)
metrics_of-some [] m h = absurd (cc (h))
metrics_of-some (call ∷ calls) m h = (cc (h), omega arith)

-- An entry holds the metrics of its method's calls, which there are.
pub entry_lem :
    (os : List Observation) (k : MethodKey) (m : MethodMetrics)
    → Memᴰ (k, m) (collected os)
    → (m ≡ observed (own k os)) × (0 < length (own k os))
entry_lem os k m mem =
    metrics_of-some (own k os) m
      (sym (lookup-collected os k) ∙ Mem-lookup k m (collected os) (collected-Unique os) mem)

pub length-own-le : (k : MethodKey) (os : List Observation) → length (own k os) ≤ length os
unfolding own
length-own-le k [] = omega arith
length-own-le k (o ∷ os) = ground (arith, length-own-le k os)

own-called : (o : Observation) (os : List Observation) → Memᴰ o os → 0 < length (own (key_of o) os)
unfolding own
own-called o [] mem = elim mem [ ]
own-called o (o' ∷ os) (Memᴰ.head e) =
    let same : same_key (key_of o') (key_of o) ≡ true =
      (pair_eq.beq_iff (key_of o') (key_of o)).1 (ap (λ (o : Observation). key_of o) (sym e)) in
    rw same (omega arith)
own-called o (o' ∷ os) (Memᴰ.tail mem) = ground (arith, own-called o os mem)

-- A method that was called has an entry.
pub entry_of_call :
    (o : Observation) (os : List Observation)
    → Memᴰ o os
    → (m : MethodMetrics) × Memᴰ (key_of o, m) (collected os)
entry_of_call o os mem = found (own (key_of o) os) refl
  where
    found :
        (calls : List (ℕ × Bool))
        → own (key_of o) os ≡ calls
        → (m : MethodMetrics) × Memᴰ (key_of o, m) (collected os)
    found [] e =
        absurd (omega (arith, own-called o os mem, ap (λ (cs : List (ℕ × Bool)). length cs) e))
    found (call ∷ calls) e = (
      observed (call ∷ calls),
      lookup-Mem (key_of o) _ (collected os) (lookup-collected os (key_of o) ∙ ap metrics_of e),
    )
