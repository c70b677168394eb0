-- ===== src/Transport/Connection/GroupCommit/Runs.antt =====
-- Runs of WriteRaw, and its theorems at inputs.
use kama_rpc_go.Base.{◌≡◌, refl, All, false, List, [], ◌∷◌, ◌++◌, none, ok, err, foreign, map}
use kama_rpc_go.Transport.Connection.{wrote, write_failed, flush, flush_from}
use kama_rpc_go.Transport.Connection.GroupCommit.{
  Write, idle, Writes, no_writes, join, write_raw, own_flushed, batch_flushed, flushed, take_batch,
  take_turn, Event, enters, flushes, locks, step, run,
}
use kama_rpc_go.Transport.Connection.GroupCommit.Waiting.{
  calls_of, returned_calls, entered, all_return,
}
use kama_rpc_go.Transport.Connection.GroupCommit.Order.{stream, blocks, run-stream}
use kama_rpc_go.Transport.Connection.GroupCommit.Delivery.{Delivered, returned-Delivered}
use kama_rpc_go.Base.{◌++◌}
use kama_rpc_go.Transport.Connection.GroupCommit.Waiting.{calls_of, returned_calls, entered}
use kama_rpc_go.Transport.Connection.GroupCommit.Draining.{leader_ends}

abbrev first : Write
first = record { writer = 1; bytes = 10 ∷ 11 ∷ [] }

abbrev second : Write
second = record { writer = 2; bytes = 20 ∷ [] }

abbrev third : Write
third = record { writer = 3; bytes = 30 ∷ 31 ∷ [] }

-- Two calls come while the first writes, and are written together.
abbrev busy : List Event
busy = enters first ∷ enters second ∷ enters third ∷ []

abbrev batched : List Event
batched =
    enters first
    ∷ enters second
    ∷ enters third
    ∷ flushes (map wrote (1 ∷ 1 ∷ []))
    ∷ locks
    ∷ flushes (map wrote (2 ∷ 1 ∷ []))
    ∷ locks
    ∷ []

abbrev drained : Writes
drained = record {
  writing = false;
  batch = none;
  leader = idle;
  wire = 10 ∷ 11 ∷ 20 ∷ 30 ∷ 31 ∷ [];
  returned = (second, ok tt) ∷ (third, ok tt) ∷ (first, ok tt) ∷ [];
}

batched-run : run no_writes batched ≡ drained
unfolding run step write_raw join flushed own_flushed batch_flushed take_turn take_batch flush
    flush_from
batched-run = refl

-- The second write fails, and those who wait for it are told.
failed_run :
    (run no_writes (
      enters first
      ∷ enters second
      ∷ flushes (wrote 2 ∷ [])
      ∷ locks
      ∷ flushes (write_failed (foreign 5) ∷ [])
      ∷ locks
      ∷ [])).returned
    ≡ (second, err (foreign 5)) ∷ (first, ok tt) ∷ []
unfolding run step write_raw join flushed own_flushed batch_flushed take_turn take_batch flush
    flush_from
failed_run = refl

all_return_example :
    calls_of 2 (returned_calls (run no_writes batched)) ≡ calls_of 2 (entered batched)
all_return_example = all_return 2 batched (rw batched-run refl)

run-stream_example : stream (run no_writes batched) ≡ stream no_writes ++ blocks (entered batched)
run-stream_example =
    run-stream no_writes batched (refl, refl)
      (tt, (tt, (tt, ((1 ∷ 1 ∷ [], refl), (tt, ((2 ∷ 1 ∷ [], refl), (tt, tt)))))))

returned-Delivered_example :
    All (Delivered (run no_writes batched).wire) (run no_writes batched).returned
returned-Delivered_example = returned-Delivered batched

leader_ends_example :
    let all = busy ++ (flushes (wrote 2 ∷ []) ∷ locks ∷ flushes (wrote 3 ∷ []) ∷ locks ∷ []) in
    ((run no_writes all).leader ≡ idle)
    × (calls_of 1 (returned_calls (run no_writes all)) ≡ calls_of 1 (entered all))
unfolding run step write_raw join flush flush_from
leader_ends_example = leader_ends 1 busy (wrote 2 ∷ []) (wrote 3 ∷ []) (ok tt, refl) (ok tt, refl)
