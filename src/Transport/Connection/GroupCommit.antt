-- ===== src/Transport/Connection/GroupCommit.antt =====
-- internal/core/transport/tcp_connection.go, WriteRaw: writes that are made at the same time are
-- joined into batches, which the goroutine that writes already (the leader) writes for the
-- others. An event is what a goroutine does between two moments at which others can act:
-- entering WriteRaw up to the unlock, a flush with the writes of the socket, and the leader's turn
-- under the lock. The bytes of a flush count as written when it returns, since only the leader
-- writes. A call is known by a number.
pub mod Shapes
pub mod Waiting
pub mod Order
pub mod Delivery
pub mod Draining
pub mod Messages
mod Runs
use kama_rpc_go.Base.{
  ℕ, ◌==◌, if◌then◌else◌, Bool, true, false, List, [], ◌∷◌, ◌++◌, Bytes, length, map, Option, none,
  some, Result, ok,
}
use kama_rpc_go.Transport.Connection.{SocketWrite, flush}

pub record Write : Type 0 where
  pub writer : ℕ
  pub bytes : Bytes

-- writeBatch: `buf`, and the calls that wait for its `done`.
pub record WriteBatch : Type 0 where
  pub buf : Bytes
  pub waiting : List Write

-- Where the leader is: there is none, it writes its own data, it is about to take the lock, with
-- the error of its own write, or it writes a batch.
pub data Leader : Type 0 where
  idle : Leader
  writes_own : Write → Leader
  turns : Write → Result (Unit {0}) → Leader
  writes_batch : Write → Result (Unit {0}) → WriteBatch → Leader

-- `writing`, `batch` and the leader, with the bytes that the socket took and the calls that have
-- returned, each with its result.
pub record Writes : Type 0 where
  pub writing : Bool
  pub batch : Option WriteBatch
  pub leader : Leader
  pub wire : Bytes
  pub returned : List (Write × Result (Unit {0}))

abbrev pub no_writes : Writes
no_writes = record { writing = false; batch = none; leader = idle; wire = []; returned = [] }

-- The batch that is there, or a new one, with the data appended.
unfoldable pub join : Write → Option WriteBatch → WriteBatch
join w none = record { buf = w.bytes; waiting = w ∷ [] }
join w (some b) = record { buf = b.buf ++ w.bytes; waiting = b.waiting ++ (w ∷ []) }

unfoldable pub write_raw : Write → Writes → Writes
unfolding join
write_raw w s =
    if length w.bytes == 0
    then record s { returned = s.returned ++ ((w, ok tt) ∷ []) }
    else if s.writing
    then record s { batch = some (join w s.batch) }
    else record s { writing = true; leader = writes_own w }

-- `writeErr := tc.flush(data)`
unfoldable pub own_flushed : Write → Bytes × Option (Result (Unit {0})) → Writes → Writes
own_flushed w (out, none) s = s
own_flushed w (out, some r) s = record s { wire = s.wire ++ out; leader = turns w r }

-- `curErr := tc.flush(cur.buf)`, and the calls that wait are told.
unfoldable pub batch_flushed :
    Write → Result (Unit {0}) → WriteBatch → Bytes × Option (Result (Unit {0})) → Writes → Writes
batch_flushed w own b (out, none) s = s
batch_flushed w own b (out, some r) s = record s {
  wire = s.wire ++ out;
  leader = turns w own;
  returned = s.returned ++ map (λ v. (v, r)) b.waiting;
}

unfoldable pub flushed : Leader → List SocketWrite → Writes → Writes
unfolding own_flushed batch_flushed
flushed idle writes s = s
flushed (writes_own w) writes s = own_flushed w (flush writes w.bytes) s
flushed (turns w own) writes s = s
flushed (writes_batch w own b) writes s = batch_flushed w own b (flush writes b.buf) s

-- The test of the loop, under the lock: a batch is taken, or the leader returns.
unfoldable pub take_batch : Write → Result (Unit {0}) → Option WriteBatch → Writes → Writes
take_batch w own (some b) s = record s { batch = none; leader = writes_batch w own b }
take_batch w own none s = record s {
  writing = false;
  leader = idle;
  returned = s.returned ++ ((w, own) ∷ []);
}

unfoldable pub take_turn : Leader → Writes → Writes
unfolding take_batch
take_turn (turns w own) s = take_batch w own s.batch s
take_turn idle s = s
take_turn (writes_own w) s = s
take_turn (writes_batch w own b) s = s

pub data Event : Type 0 where
  enters : Write → Event
  flushes : List SocketWrite → Event
  locks : Event

unfoldable pub step : Writes → Event → Writes
unfolding write_raw flushed take_turn
step s (enters w) = write_raw w s
step s (flushes writes) = flushed s.leader writes s
step s locks = take_turn s.leader s

unfoldable pub run : Writes → List Event → Writes
run s [] = s
run s (e ∷ es) = run (step s e) es
