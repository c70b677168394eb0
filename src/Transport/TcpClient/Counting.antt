-- ===== src/Transport/TcpClient/Counting.antt =====
-- How often a future stands in the pending table.
use kama_rpc_go.Base.{
  ℕ, zero, suc, ◌+◌, ◌%◌, ◌≤◌, ◌<◌, ◌≡◌, refl, arith, ◌==◌, if◌then◌else◌, List, [], ◌∷◌, ◌++◌,
  Option, none, some, nat_eq, lookup, insert, erase, ==_iff, Bool-cases, inl, inr,
}
use kama_rpc_go.Transport.Pending.{
  Shard, PendingMap, shard, set_shard, store, delete, load_found, load_and_delete, futures_of,
  drain_shard, new_pending_map,
}

abbrev pub hit : ℕ → ℕ → ℕ
hit f g = if f == g then 1 else 0

unfoldable pub count : ℕ → List ℕ → ℕ
count f [] = 0
count f (g ∷ gs) = hit f g + count f gs

pub count-append : (f : ℕ) (xs ys : List ℕ) → count f (xs ++ ys) ≡ count f xs + count f ys
unfolding count
count-append f [] ys = omega arith
count-append f (x ∷ xs) ys = omega (arith, count-append f xs ys)

abbrev in_shard : ℕ → Shard → ℕ
in_shard f m = count f (futures_of m)

-- In the first n shards, and in all of them.
in_shards : ℕ → ℕ → PendingMap → ℕ
in_shards f zero p = 0
in_shards f (suc n) p = in_shards f n p + in_shard f (p.shards n)

pub in_pending : ℕ → PendingMap → ℕ
in_pending f p = in_shards f 32 p

in_shards_above :
    (f n i : ℕ) (m : Shard) (p : PendingMap)
    → n ≤ i
    → in_shards f n (set_shard i m p) ≡ in_shards f n p
unfolding in_shards set_shard
in_shards_above f zero i m p h = refl
in_shards_above f (suc n) i m p h = ground (arith, in_shards_above f n i m p, ==_iff i n)

in_shards-set_shard :
    (f n i : ℕ) (m : Shard) (p : PendingMap)
    → i < n
    → in_shards f n (set_shard i m p) + in_shard f (p.shards i) ≡ in_shards f n p + in_shard f m
unfolding in_shards
in_shards-set_shard f zero i m p h = absurd (omega arith)
in_shards-set_shard f (suc n) i m p h = elim (Bool-cases (i == n)) [
  | inl last ↦
      let e : i ≡ n = ground arith in
      rw (← e, in_shards_above f i i m p (omega arith), here) (omega arith)
  | inr before ↦
      let ih = in_shards-set_shard f n i m p (ground arith) in rw (there, before) (omega arith)
]
  where
    here : (set_shard i m p).shards i ≡ m
    here = unfold set_shard in ground (arith, ==_iff i i)

    there : (set_shard i m p).shards n ≡ (if i == n then m else p.shards n)
    there = unfold set_shard in refl

in_shard-insert : (f seq g : ℕ) (m : Shard) → in_shard f (insert seq g m) ≤ in_shard f m + hit f g
unfolding insert count
in_shard-insert f seq g [] = omega arith
in_shard-insert f seq g ((j, h) ∷ m) = ground (arith, in_shard-insert f seq g m)

in_shard-erase : (f seq : ℕ) (m : Shard) → in_shard f (erase seq m) ≤ in_shard f m
unfolding erase count
in_shard-erase f seq [] = omega arith
in_shard-erase f seq ((j, h) ∷ m) = ground (arith, in_shard-erase f seq m)

in_shard-found :
    (f seq g : ℕ) (m : Shard)
    → lookup seq m ≡ some g
    → in_shard f (erase seq m) + hit f g ≤ in_shard f m
unfolding erase lookup count
in_shard-found f seq g [] e = absurd (cc)
in_shard-found f seq g ((j, h) ∷ m) e =
    ground (arith, in_shard-erase f seq m, in_shard-found f seq g m)

pub in_pending-store :
    (f seq g : ℕ) (p : PendingMap) → in_pending f (store seq g p) ≤ in_pending f p + hit f g
unfolding in_pending store
in_pending-store f seq g p = omega (
  arith,
  in_shards-set_shard f 32 (seq % 32) (insert seq g (shard p seq)) p,
  in_shard-insert f seq g (shard p seq),
)

pub in_pending-delete : (f seq : ℕ) (p : PendingMap) → in_pending f (delete seq p) ≤ in_pending f p
unfolding in_pending delete
in_pending-delete f seq p = omega (
  arith,
  in_shards-set_shard f 32 (seq % 32) (erase seq (shard p seq)) p,
  in_shard-erase f seq (shard p seq),
)

-- What LoadAndDelete gives is in the table once less.
abbrev pub hits : ℕ → Option ℕ → ℕ
hits f none = 0
hits f (some g) = hit f g

pub in_pending-load_and_delete :
    (f seq : ℕ) (p : PendingMap)
    → in_pending f (load_and_delete seq p).1 + hits f (load_and_delete seq p).0 ≤ in_pending f p
unfolding load_and_delete
in_pending-load_and_delete f seq p = found (lookup seq (shard p seq)) refl
  where
    found :
        (o : Option ℕ)
        → lookup seq (shard p seq) ≡ o
        → in_pending f (load_found seq o p).1 + hits f (load_found seq o p).0 ≤ in_pending f p
    found none e = unfold load_found in omega arith
    found (some g) e =
        unfold load_found in_pending delete in
        omega (
          arith,
          in_shards-set_shard f 32 (seq % 32) (erase seq (shard p seq)) p,
          in_shard-found f seq g (shard p seq) e,
        )

-- What a shard's turn gives is not in the table any more.
pub in_pending-drain_shard :
    (f i : ℕ) (p : PendingMap)
    → i < 32
    → in_pending f (drain_shard i p).1 + count f (drain_shard i p).0 ≡ in_pending f p
unfolding in_pending drain_shard count
in_pending-drain_shard f i p h = omega (arith, in_shards-set_shard f 32 i [] p h)

in_shards-empty : (f n : ℕ) → in_shards f n new_pending_map ≡ 0
unfolding in_shards count new_pending_map
in_shards-empty f zero = refl
in_shards-empty f (suc n) = omega (arith, in_shards-empty f n)

pub in_pending-new_pending_map : (f : ℕ) → in_pending f new_pending_map ≡ 0
unfolding in_pending
in_pending-new_pending_map f = in_shards-empty f 32
