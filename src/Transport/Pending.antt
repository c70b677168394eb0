-- ===== src/Transport/Pending.antt =====
-- internal/core/transport/pending.go: the calls in flight, by request id. A future is known by a
-- number. A shard's lock makes each access of a shard one step. Go leaves open in which order a
-- map is ranged over: here it is the order of the entries.
pub mod Table
mod Runs
use kama_rpc_go.Base.{
  ℕ, zero, suc, ◌%◌, ◌==◌, if◌then◌else◌, Bool, List, [], ◌∷◌, ◌++◌, Option, none, some, nat_eq,
  lookup, insert, erase,
}

-- map[uint64]*Future
abbrev pub Shard : Type 0
Shard = List (ℕ × ℕ)

abbrev pub pending_shards : ℕ
pending_shards = 32

-- The shard at each index below `pending_shards`.
pub record PendingMap : Type 0 where
  pub shards : ℕ → Shard

unfoldable pub new_pending_map : PendingMap
new_pending_map = record { shards = λ i. [] }

abbrev pub shard : PendingMap → ℕ → Shard
shard p seq = p.shards (seq % pending_shards)

-- What a method leaves in the shard at index `i`.
unfoldable pub set_shard : ℕ → Shard → PendingMap → PendingMap
set_shard i m p = record { shards = λ j. if i == j then m else p.shards j }

unfoldable pub store : ℕ → ℕ → PendingMap → PendingMap
unfolding set_shard
store seq f p = set_shard (seq % pending_shards) (insert seq f (shard p seq)) p

unfoldable pub delete : ℕ → PendingMap → PendingMap
unfolding set_shard
delete seq p = set_shard (seq % pending_shards) (erase seq (shard p seq)) p

-- `if ok { delete(s.m, seq) }`
unfoldable pub load_found : ℕ → Option ℕ → PendingMap → Option ℕ × PendingMap
load_found seq none p = (none, p)
load_found seq (some f) p = (some f, delete seq p)

unfoldable pub load_and_delete : ℕ → PendingMap → Option ℕ × PendingMap
unfolding load_found
load_and_delete seq p = load_found seq (lookup seq (shard p seq)) p

-- The futures of one shard, which `range` appends.
abbrev pub futures_of : Shard → List ℕ
futures_of [] = []
futures_of ((seq, f) ∷ m) = f ∷ futures_of m

-- One shard's turn in the loop of DrainAll.
unfoldable pub drain_shard : ℕ → PendingMap → List ℕ × PendingMap
unfolding set_shard
drain_shard i p = (futures_of (p.shards i), set_shard i [] p)

-- The loop over the first `n` shards.
unfoldable pub drain_shards : ℕ → PendingMap → List ℕ × PendingMap
unfolding drain_shard
drain_shards zero p = ([], p)
drain_shards (suc n) p =
    let r = drain_shards n p in let last = drain_shard n r.1 in (r.0 ++ last.0, last.1)

unfoldable pub drain_all : PendingMap → List ℕ × PendingMap
drain_all p = drain_shards pending_shards p
