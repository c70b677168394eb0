-- ===== src/Transport/Pending/Runs.antt =====
-- A run of the pending table.
use kama_rpc_go.Base.{◌≡◌, refl, [], ◌∷◌, insert}
use kama_rpc_go.Transport.Pending.{PendingMap, new_pending_map, store, drain_shards, drain_all}

-- 1 and 33 share a shard.
abbrev three : PendingMap
three = store 2 7 (store 33 6 (store 1 5 new_pending_map))

drains : (drain_all three).0 ≡ 5 ∷ 6 ∷ 7 ∷ []
unfolding drain_all drain_shards store new_pending_map insert
drains = refl
