-- ===== src/Metrics/Collector/Snapshots.antt =====
-- What a snapshot tells of each method.
use kama_rpc_go.Base.{
  ℕ, ◌^◌, ◌<◌, ◌≤◌, ◌≡◌, refl, ap, ap₂, ◌∙◌, arith, ltb, List, map, length, bytes_eq, pair_eq,
  Bool-cases, inl, inr, if_true, lt→ltb, Bytes,
}
use kama_rpc_go.Base.Keys.{map-Mem, Mem-map}
use kama_rpc_go.Metrics.{Observation, MethodMetrics}
use kama_rpc_go.Metrics.Quantiles.{observed-Counts}
use kama_rpc_go.Metrics.Collector.{
  MethodKey, key_of, MethodStat, bare_stat, full_stat, stat_of, snapshot,
}
use kama_rpc_go.Metrics.Collector.Stats.{Tells, full_stat-Tells}
use kama_rpc_go.Metrics.Collector.Entries.{collected, own, entry_lem, length-own-le, entry_of_call}
use mathlib.Core.List.{Memᴰ}

stat_of-full :
    (rank : ℕ → ℕ → ℕ) (k : MethodKey) (m : MethodMetrics)
    → 0 < m.count
    → stat_of rank (k, m) ≡ full_stat rank k m
unfolding stat_of
stat_of-full rank k m h = if_true (full_stat rank k m) (bare_stat k m) (lt→ltb 0 m.count h)

entry-Tells :
    (rank : ℕ → ℕ → ℕ) (os : List Observation) (k : MethodKey) (m : MethodMetrics)
    → length os < 2 ^ 64
    → ((n p : ℕ) → p ≤ 100 → rank n p ≤ n)
    → Memᴰ (k, m) (collected os)
    → Tells rank (own k os) (stat_of rank (k, m))
entry-Tells rank os k m small ranks mem =
    let (e, h) = entry_lem os k m mem in
    let fits : length (own k os) < 2 ^ 64 = omega (arith, length-own-le k os) in
    let c : m.count ≡ length (own k os) =
      ap (λ (m : MethodMetrics). m.count) e ∙ (observed-Counts (own k os) fits).counted in
    rw (stat_of-full rank k m (omega (arith, c)), e)
      (full_stat-Tells rank k (own k os) h fits ranks)

stat_of-key :
    (rank : ℕ → ℕ → ℕ) (k : MethodKey) (m : MethodMetrics)
    → ((stat_of rank (k, m)).service ≡ k.0) × ((stat_of rank (k, m)).method ≡ k.1)
unfolding stat_of full_stat bare_stat
stat_of-key rank k m = elim (Bool-cases (ltb 0 m.count)) [
  | inl called ↦ rw called (refl, refl)
  | inr idle ↦ rw idle (refl, refl)
]

-- The stats of a snapshot, after the calls of Observe `os`.
abbrev pub TellsAll : (ℕ → ℕ → ℕ) → List Observation → List MethodStat → Type 0
TellsAll rank os stats =
    ((st : MethodStat) → Memᴰ st stats → Tells rank (own (st.service, st.method) os) st)
    × ((o : Observation)
        → Memᴰ o os
        → (st : MethodStat) × Memᴰ st stats × (st.service ≡ o.service) × (st.method ≡ o.method))

-- After any calls of Observe, fewer than 2 ^ 64, the snapshot has a stat for every method that was
-- called, and each of its stats tells of the calls of its method alone: how many there were and
-- how many failed, the sum of their durations modulo 2 ^ 64 over their number, the bounds of the
-- buckets of the calls with the ranks of the three quantiles, and that of the slowest call. What the conversions to float
-- and back make of a rank does not exceed the number of calls.
pub snapshot-TellsAll :
    (rank : ℕ → ℕ → ℕ) (os : List Observation)
    → length os < 2 ^ 64
    → ((n p : ℕ) → p ≤ 100 → rank n p ≤ n)
    → TellsAll rank os (snapshot rank (collected os))
unfolding snapshot
snapshot-TellsAll rank os small ranks = (sound, complete)
  where
    sound :
        (st : MethodStat)
        → Memᴰ st (map (stat_of rank) (collected os))
        → Tells rank (own (st.service, st.method) os) st
    sound st mem =
        let ((k, m), entry, e) = map-Mem (stat_of rank) st (collected os) mem in
        let (s, t) = stat_of-key rank k m in
        let key : (st.service, st.method) ≡ k =
          ap₂ (λ (a b : Bytes). (a, b)) (ap (λ (x : MethodStat). x.service) e ∙ s)
            (ap (λ (x : MethodStat). x.method) e ∙ t) in
        rw (key, e) (entry-Tells rank os k m small ranks entry)

    complete :
        (o : Observation)
        → Memᴰ o os
        → (st : MethodStat) × Memᴰ st (map (stat_of rank) (collected os))
          × (st.service ≡ o.service)
          × (st.method ≡ o.method)
    complete o mem =
        let (m, entry) = entry_of_call o os mem in
        let (s, t) = stat_of-key rank (key_of o) m in
        (stat_of rank (key_of o, m), Mem-map (stat_of rank) _ (collected os) entry, s, t)
