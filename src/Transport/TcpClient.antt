-- ===== src/Transport/TcpClient.antt =====
-- internal/core/transport/tcp_client.go: the client of one connection, which many goroutines
-- share. What other goroutines may see between two actions is a step of its own: SendAsync is
-- `begin_send`, then the write, then `end_send`. `allocated` numbers the futures that NewFuture
-- made; a call future.Done(res, err) is a completion (future, res, err).
mod Counting
pub mod Once
pub mod Answers
pub mod Batch
pub mod Numbering
pub mod ReadLoop
mod Runs
use kama_rpc_go.Base.{
  ℕ, ◌+◌, ◌%◌, ◌^◌, if◌then◌else◌, Bool, true, false, List, [], ◌∷◌, map, Bytes, Option, none, some,
  Result, Error, ok, err, conn_closed, remote,
}
use kama_rpc_go.Protocol.Header.{Header}
use kama_rpc_go.Transport.Pending.{
  PendingMap, new_pending_map, store, delete, load_and_delete, drain_all,
}

pub record TcpClient : Type 0 where
  pub seq : ℕ
  pub pending : PendingMap
  pub closed : Bool
  pub allocated : ℕ

abbrev pub Completion : Type 0
Completion = ℕ × Bytes × Option Error

-- newTCPClient, on a connection that was dialled; the first future has number `n`.
unfoldable pub new_tcp_client : ℕ → TcpClient
unfolding new_pending_map
new_tcp_client n = record { seq = 0; pending = new_pending_map; closed = false; allocated = n }

-- atomic.AddUint64(&c.seq, 1)
abbrev pub next_seq : TcpClient → ℕ
next_seq c = (c.seq + 1) % 2 ^ 64

abbrev pub failed_with : Error → ℕ → Completion
failed_with e f = (f, [], some e)

-- The compare-and-swap of `closed` lets the first call through only.
unfoldable pub fail : Error → TcpClient → List Completion × TcpClient
fail e c = if c.closed then ([], c) else (
  map (failed_with e) (drain_all c.pending).0,
  record c { closed = true; pending = (drain_all c.pending).1 },
)

unfoldable pub close : TcpClient → List Completion × TcpClient
close c = fail conn_closed c

-- The request id and the future, which waits from here on.
unfoldable pub register : TcpClient → (ℕ × ℕ) × TcpClient
register c = (
  (next_seq c, c.allocated),
  record c {
    seq = next_seq c;
    pending = store (next_seq c) c.allocated c.pending;
    allocated = c.allocated + 1;
  },
)

-- SendAsync up to the write, if nothing comes between its test of `closed` and the rest.
unfoldable pub begin_send : TcpClient → Result (ℕ × ℕ) × TcpClient
begin_send c = if c.closed then (err conn_closed, c) else (ok (register c).0, (register c).1)

-- SendAsync after the write of request `seq`, by what the write returned.
unfoldable pub end_send : ℕ → Option Error → TcpClient → List Completion × TcpClient
unfolding fail
end_send seq none c = ([], c)
end_send seq (some e) c = fail e (record c { pending = delete seq c.pending })

-- The answer to a request that waits: an error that the server reports, or a copy of the body.
unfoldable pub complete_with : Header → Bytes → ℕ → Completion
complete_with h body f = elim h.error [
  | [] ↦ (f, body, none)
  | x ∷ text ↦ (f, [], some (remote (x ∷ text)))
]

unfoldable pub complete_found : Header → Bytes → Option ℕ → List Completion
unfolding complete_with
complete_found h body none = []
complete_found h body (some f) = complete_with h body f ∷ []

-- A round of readLoop, with the message that ReadBorrowed returned; with an error it is `fail`.
unfoldable pub answer : Header → Bytes → TcpClient → List Completion × TcpClient
unfolding complete_found
answer h body c =
    let r = load_and_delete h.request_id c.pending in
    (complete_found h body r.0, record c { pending = r.1 })
