-- ===== src/Transport/TcpClient/Runs.antt =====
-- Runs of a client, and the theorems at inputs.
use kama_rpc_go.Base.{
  ℕ, ◌+◌, ◌%◌, ◌^◌, ◌<◌, ◌≤◌, ◌≡◌, refl, true, false, List, [], ◌∷◌, none, some, err, conn_closed,
  foreign, lookup, insert, erase, arith,
}
use kama_rpc_go.Protocol.Header.{Header}
use kama_rpc_go.Transport.Pending.{
  store, delete, load_and_delete, drain_shard, drain_shards, drain_all,
}
use kama_rpc_go.Transport.TcpClient.{
  TcpClient, new_tcp_client, failed_with, fail, close, register, begin_send, end_send, answer,
}
use kama_rpc_go.Codec.Compress.{storing}
use kama_rpc_go.Protocol.Message.{Library}
use kama_rpc_go.Transport.Pending.Table.{waiting, waiting-new_pending_map}
use kama_rpc_go.Transport.TcpClient.Batch.{Request, begin_batch}
use kama_rpc_go.Transport.TcpClient.Numbering.{AllOrNothing, begin_batch-AllOrNothing}
use kama_rpc_go.Transport.TcpClient.Answers.{waits_for, fail-completes}
use kama_rpc_go.Transport.TcpClient.Counting.{count, in_pending}
use kama_rpc_go.Transport.TcpClient.Once.{
  Event, registers, withdraws, answers, drains, step, run, completed, run-once,
}
use mathlib.Core.List.{Memᴰ}

-- The answer to request `id`.
abbrev reply : ℕ → Header
reply id = record {
  request_id = id;
  service_name = [];
  method_name = [];
  error = [];
  codec_type = 1;
  compression = 0;
}

-- Two requests, of which the second is answered first.
abbrev two_sent : TcpClient
two_sent = (begin_send (begin_send (new_tcp_client 5)).1).1

second_answered : (answer (reply 2) (65 ∷ []) two_sent).0 ≡ (6, 65 ∷ [], none) ∷ []
unfolding answer begin_send register new_tcp_client store load_and_delete insert lookup
second_answered = refl

-- Closing fails both; a request after that is refused.
both_failed : (close two_sent).0 ≡ failed_with conn_closed 5 ∷ failed_with conn_closed 6 ∷ []
unfolding close fail begin_send register new_tcp_client store insert drain_all drain_shards
both_failed = refl

refused : (begin_send (close two_sent).1).0 ≡ err conn_closed
unfolding close fail begin_send register new_tcp_client store insert drain_all drain_shards
refused = refl

-- The request that could not be written is taken back before the others fail.
write_fails : (end_send 2 (some (foreign 1)) two_sent).0 ≡ failed_with (foreign 1) 5 ∷ []
unfolding end_send begin_send register new_tcp_client store delete insert erase drain_all
    drain_shards
write_fails = refl

two_sent_open : two_sent.closed ≡ false
unfolding begin_send register new_tcp_client
two_sent_open = refl

fail-completes_example :
    ((f : ℕ)
      → waits_for two_sent 1 ≡ some f
      → Memᴰ (failed_with conn_closed f) (fail conn_closed two_sent).0)
    × (waits_for (fail conn_closed two_sent).1 1 ≡ none)
    × ((fail conn_closed two_sent).1.closed ≡ true)
fail-completes_example = fail-completes conn_closed two_sent 1 two_sent_open

-- An answer that comes twice, and a drain after it.
abbrev busy : List Event
busy =
    registers
    ∷ registers
    ∷ answers (reply 1) []
    ∷ answers (reply 1) []
    ∷ withdraws 7
    ∷ drains 2 (omega arith) conn_closed
    ∷ drains 2 (omega arith) conn_closed
    ∷ []

busy_completes : completed (run (new_tcp_client 0) busy).0 ≡ 0 ∷ 1 ∷ []
unfolding run step register new_tcp_client store delete answer load_and_delete insert erase lookup
    drain_shard
busy_completes = refl

run-once_example :
    let r = run (new_tcp_client 0) busy in in_pending 1 r.1.pending + count 1 (completed r.0) ≤ 1
run-once_example = run-once 0 1 busy

abbrev small : Request
small = record { header = reply 0; body = 65 ∷ [] }

abbrev lib : Library
lib = record {
  gzip = storing;
  json = record { marshal = λ h. err (foreign 0); unmarshal = λ b. err (foreign 0) };
}

batch_refused : (begin_batch lib (small ∷ []) (close two_sent).1).0 ≡ err conn_closed
unfolding begin_batch close fail begin_send register new_tcp_client store insert drain_all
    drain_shards
batch_refused = refl

all_free :
    (i : ℕ)
    → i < 2
    → waiting (new_tcp_client 5).pending (((new_tcp_client 5).seq + 1 + i) % 2 ^ 64) ≡ none
unfolding new_tcp_client
all_free i below = waiting-new_pending_map ((0 + 1 + i) % 2 ^ 64)

begin_batch-AllOrNothing_example :
    AllOrNothing lib
      (new_tcp_client 5)
      (small ∷ small ∷ [])
      (begin_batch lib (small ∷ small ∷ []) (new_tcp_client 5))
begin_batch-AllOrNothing_example =
    begin_batch-AllOrNothing lib (small ∷ small ∷ []) (new_tcp_client 5) (omega arith) all_free
