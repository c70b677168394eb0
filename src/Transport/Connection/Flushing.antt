-- ===== src/Transport/Connection/Flushing.antt =====
-- flush writes the whole block, in order, or reports an error.
use kama_rpc_go.Base.{
  ℕ, ◌+◌, ◌≤◌, ◌<◌, ◌≡◌, arith, List, [], ◌∷◌, ◌++◌, Bytes, length, take, drop, some, All, map, ok,
  take-append-drop, drop-drop, drop_all,
}
use kama_rpc_go.Transport.Connection.{SocketWrite, wrote, write_failed, flush_from, flush}

take-drop-append : (n t : ℕ) (b : Bytes) → take n (drop t b) ++ drop (t + n) b ≡ drop t b
take-drop-append n t b = rw (← drop-drop n t b) (take-append-drop n (drop t b))

flush_from-ok :
    (writes : List SocketWrite) (bytes : Bytes) (total : ℕ)
    → (flush_from writes bytes total).1 ≡ some (ok tt)
    → (flush_from writes bytes total).0 ≡ drop total bytes
unfolding flush_from
flush_from-ok [] bytes total h = ground (arith, drop_all total bytes)
flush_from-ok (write_failed e ∷ writes) bytes total h = ground (arith, drop_all total bytes)
flush_from-ok (wrote n ∷ writes) bytes total h = ground (
  arith,
  drop_all total bytes,
  take-drop-append n total bytes,
  flush_from-ok writes bytes (total + n),
)

-- A flush that reports no error has put exactly the block on the wire, in order, by however many
-- partial writes.
pub flush-ok :
    (writes : List SocketWrite) (bytes : Bytes)
    → (flush writes bytes).1 ≡ some (ok tt)
    → (flush writes bytes).0 ≡ bytes
unfolding flush
flush-ok writes bytes h = flush_from-ok writes bytes 0 h

abbrev IsProgress : List ℕ → Type 0
IsProgress = All (λ n. 0 < n)

flush_from-returns :
    (sizes : List ℕ) (bytes : Bytes) (total : ℕ)
    → IsProgress sizes
    → length bytes ≤ total + length sizes
    → (flush_from (map wrote sizes) bytes total).1 ≡ some (ok tt)
unfolding flush_from
flush_from-returns [] bytes total p h = ground arith
flush_from-returns (n ∷ sizes) bytes total p h =
    ground (arith, flush_from-returns sizes bytes (total + n) p.1 (omega arith))

-- Where each write takes a byte at least, flush ends, without an error, after as many writes as
-- there are bytes at most.
pub flush-returns :
    (sizes : List ℕ) (bytes : Bytes)
    → IsProgress sizes
    → length bytes ≤ length sizes
    → (flush (map wrote sizes) bytes ≡ (bytes, some (ok tt)))
unfolding flush
flush-returns sizes bytes p h =
    let e = flush_from-returns sizes bytes 0 p (omega arith) in
    cc (e, flush_from-ok (map wrote sizes) bytes 0 e)
