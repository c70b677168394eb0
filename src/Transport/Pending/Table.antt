-- ===== src/Transport/Pending/Table.antt =====
-- The shards together are one table from request ids to futures.
use kama_rpc_go.Base.{
  ℕ, zero, suc, ◌%◌, ◌≤◌, ◌<◌, ◌≡◌, refl, arith, ◌==◌, if◌then◌else◌, [], ◌∷◌, Option, none, some,
  nat_eq, lookup, lookup-insert, lookup-erase, ==_iff, Bool-cases, inl, inr, ◌⊎◌,
}
use kama_rpc_go.Transport.Pending.{
  Shard, PendingMap, new_pending_map, shard, set_shard, store, delete, load_found, load_and_delete,
  futures_of, drain_shards, drain_all,
}
use mathlib.Core.List.{Memᴰ}
use kama_rpc_go.Base.{Mem-append_left, Mem-append_right}

-- The table: the future that waits for the answer `seq`.
unfoldable pub waiting : PendingMap → ℕ → Option ℕ
waiting p seq = lookup seq (shard p seq)

pub waiting-new_pending_map : (seq : ℕ) → waiting new_pending_map seq ≡ none
unfolding waiting new_pending_map lookup
waiting-new_pending_map seq = refl

-- Store sets the future of its request id, and of no other one, also where two share a shard.
pub waiting-store :
    (p : PendingMap) (seq f j : ℕ)
    → waiting (store seq f p) j ≡ (if seq == j then some f else waiting p j)
unfolding waiting store set_shard
waiting-store p seq f j = ground (arith, lookup-insert seq j f (shard p seq), ==_iff seq j)

pub waiting-delete :
    (p : PendingMap) (seq j : ℕ)
    → waiting (delete seq p) j ≡ (if seq == j then none else waiting p j)
unfolding waiting delete set_shard
waiting-delete p seq j = ground (arith, lookup-erase seq j (shard p seq), ==_iff seq j)

-- LoadAndDelete answers with what the table has, and takes that entry, and no other one, out.
pub waiting-load_and_delete :
    (p : PendingMap) (seq j : ℕ)
    → ((load_and_delete seq p).0 ≡ waiting p seq)
      × (waiting (load_and_delete seq p).1 j ≡ (if seq == j then none else waiting p j))
unfolding load_and_delete lookup waiting
waiting-load_and_delete p seq j = found_lem (waiting p seq) refl
  where
    found_lem :
        (o : Option ℕ)
        → waiting p seq ≡ o
        → ((load_found seq o p).0 ≡ o)
          × (waiting (load_found seq o p).1 j ≡ (if seq == j then none else waiting p j))
    found_lem (some f) e = unfold load_found in (refl, waiting-delete p seq j)
    found_lem none e = unfold load_found in (refl, ground (arith, ==_iff seq j))

lookup-Mem : (seq f : ℕ) (m : Shard) → lookup seq m ≡ some f → Memᴰ f (futures_of m)
unfolding lookup
lookup-Mem seq f [] e = absurd (cc)
lookup-Mem seq f ((j, g) ∷ m) e = elim (Bool-cases (j == seq)) [
  | inl same ↦ Memᴰ.head (ground arith)
  | inr other ↦ Memᴰ.tail (lookup-Mem seq f m (ground arith))
]

-- The first n shards are emptied, and the others are left.
drain_shards-shards :
    (n : ℕ) (p : PendingMap) (i : ℕ)
    → ((i < n) × ((drain_shards n p).1.shards i ≡ []))
      ⊎ ((n ≤ i) × ((drain_shards n p).1.shards i ≡ p.shards i))
unfolding drain_shards set_shard
drain_shards-shards zero p i = inr (omega arith, refl)
drain_shards-shards (suc n) p i = ground (arith, drain_shards-shards n p i, ==_iff n i)

drain_shards-Mem :
    (n : ℕ) (p : PendingMap) (i f : ℕ)
    → i < n
    → Memᴰ f (futures_of (p.shards i))
    → Memᴰ f (drain_shards n p).0
unfolding drain_shards
drain_shards-Mem zero p i f h m = absurd (omega arith)
drain_shards-Mem (suc n) p i f h m = elim (drain_shards-shards n p i) [
  | inl (below, e) ↦ Mem-append_left f _ _ (drain_shards-Mem n p i f below m)
  | inr (above, e) ↦
      let here : i ≡ n = omega arith in
      let same : (drain_shards n p).1.shards n ≡ p.shards n =
        ap_shards (drain_shards n p).1 here e in
      Mem-append_right f (drain_shards n p).0 _ (rw (same, ← here) m)
]
  where
    ap_shards : (q : PendingMap) → i ≡ n → q.shards i ≡ p.shards i → q.shards n ≡ p.shards n
    ap_shards q h e = rw h at e

-- DrainAll gives every future that the table has, and leaves an empty table.
pub drain_all-waiting :
    (p : PendingMap) (seq : ℕ)
    → ((f : ℕ) → waiting p seq ≡ some f → Memᴰ f (drain_all p).0)
      × (waiting (drain_all p).1 seq ≡ none)
unfolding drain_all waiting lookup
drain_all-waiting p seq = (
  λ f e. drain_shards-Mem 32 p (seq % 32) f (omega arith) (lookup-Mem seq f (shard p seq) e),
  elim (drain_shards-shards 32 p (seq % 32)) [
    | inl (below, e) ↦ rw e
    | inr (above, e) ↦ absurd (omega arith)
  ],
)
