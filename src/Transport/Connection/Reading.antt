-- ===== src/Transport/Connection/Reading.antt =====
-- The reading loop delivers the packets of the byte stream, however the socket cuts it up.
use kama_rpc_go.Base.{
  ℕ, zero, suc, ◌≤◌, ◌<◌, ◌≡◌, refl, sym, ap, arith, true, false, List, [], ◌∷◌, ◌++◌, Bytes,
  length, take, drop, map, flatten, length-drop, drop-append_le, take-append_le, append_assoc,
  append-nil, Bool-cases, inl, inr,
}
use kama_rpc_go.Transport.PacketBuffer.{PacketBuffer, total_len, read_borrowed}
use kama_rpc_go.Transport.PacketBuffer.Stream.{
  whole, whole_bounds, whole-append, total_len-append, ten-le-total_len, split, split-whole,
  split-partial,
}
use kama_rpc_go.Transport.PacketBuffer.Refinement.{
  IsBuffer, pending, read_borrowed-whole, read_borrowed-partial, write-pending,
}
use kama_rpc_go.Transport.Connection.{
  SocketRead, got, Next, packet, broken, waiting, store, first_packet, read_packet,
}

store-pending :
    (grow : ℕ → ℕ → ℕ) (pb : PacketBuffer) (bytes : Bytes)
    → ((c n : ℕ) → n ≤ grow c n)
    → IsBuffer pb
    → (pending (store grow pb bytes) ≡ pending pb ++ bytes) × IsBuffer (store grow pb bytes)
unfolding store
store-pending grow pb [] g v = (sym (append-nil (pending pb)), v)
store-pending grow pb (b ∷ bytes) g v = write-pending grow pb (b ∷ bytes) g v

-- The whole stream: what the buffer holds, and what the socket will return.
abbrev pub stream : List Bytes → PacketBuffer → Bytes
stream chunks pb = pending pb ++ flatten chunks

-- The calls of a socket that returns these pieces.
abbrev pub pieces : List Bytes → List SocketRead
pieces = map got

-- How a call of the loop relates to the stream `s`: it returns the first packet and leaves the
-- rest of the stream, or it waits, and the stream has no whole packet.
data Cuts (s : Bytes) : Next × List SocketRead × PacketBuffer → Type 0 where
  cuts :
      (chunks : List Bytes) (pb : PacketBuffer)
      → whole s ≡ true
      → IsBuffer pb
      → stream chunks pb ≡ drop (total_len s) s
      → Cuts s (packet (take (total_len s) s), pieces chunks, pb)
  waits :
      (pb : PacketBuffer)
      → whole s ≡ false
      → IsBuffer pb
      → pending pb ≡ s
      → Cuts s (waiting, [], pb)

-- A buffer with a packet in it answers at once.
first_packet-Cuts :
    (chunks : List Bytes) (pb : PacketBuffer) (otherwise : Next × List SocketRead × PacketBuffer)
    → IsBuffer pb
    → whole (pending pb) ≡ true
    → Cuts (stream chunks pb) (first_packet (pieces chunks) (read_borrowed pb) otherwise)
unfolding first_packet
first_packet-Cuts chunks pb otherwise v w =
    let s : Bytes = pending pb in
    let t : Bytes = flatten chunks in
    let b = whole_bounds s w in
    let (e, p, v') = read_borrowed-whole pb v w in
    let same : total_len (s ++ t) ≡ total_len s = total_len-append s t b.0 in
    let cut : take (total_len (s ++ t)) (s ++ t) ≡ take (total_len s) s =
      rw same (take-append_le (total_len s) s t b.1) in
    let left : pending (read_borrowed pb).1 ++ t ≡ drop (total_len (s ++ t)) (s ++ t) =
      rw (same, p) (sym (drop-append_le (total_len s) s t b.1)) in
    rw (e, ← cut) (cuts chunks (read_borrowed pb).1 (whole-append s t w) v' left)

read_packet-Cuts :
    (grow : ℕ → ℕ → ℕ) (chunks : List Bytes) (pb : PacketBuffer)
    → ((c n : ℕ) → n ≤ grow c n)
    → IsBuffer pb
    → Cuts (stream chunks pb) (read_packet grow (pieces chunks) pb)
unfolding read_packet flatten first_packet
read_packet-Cuts grow [] pb g v = elim (Bool-cases (whole (pending pb))) [
  | inl w ↦ first_packet-Cuts [] pb _ v w
  | inr w ↦ rw (read_borrowed-partial pb w, append-nil) (waits pb w v refl)
]
read_packet-Cuts grow (chunk ∷ chunks) pb g v = elim (Bool-cases (whole (pending pb))) [
  | inl w ↦ first_packet-Cuts (chunk ∷ chunks) pb _ v w
  | inr w ↦
      let (e, v') = store-pending grow pb chunk g v in
      let ih = read_packet-Cuts grow chunks (store grow pb chunk) g v' in
      rw (read_borrowed-partial pb w, ← append_assoc (pending pb) chunk (flatten chunks), ← e) ih
]

-- A reader that calls the loop again and again, as readLoop and Handle do, until it waits or the
-- socket fails; the packets that it is given.
unfoldable pub collect :
    (List SocketRead → PacketBuffer → List Bytes × PacketBuffer)
    → Next × List SocketRead × PacketBuffer
    → List Bytes × PacketBuffer
collect next (packet p, reads, pb) = let r = next reads pb in (p ∷ r.0, r.1)
collect next (broken e, reads, pb) = ([], pb)
collect next (waiting, reads, pb) = ([], pb)

unfoldable pub read_all :
    (ℕ → ℕ → ℕ) → ℕ → List SocketRead → PacketBuffer → List Bytes × PacketBuffer
read_all grow zero reads pb = ([], pb)
read_all grow (suc fuel) reads pb = collect (read_all grow fuel) (read_packet grow reads pb)

abbrev pub Delivers : List Bytes × PacketBuffer → Bytes → Type 0
Delivers r s = (r.0 ≡ (split s).0) × (pending r.1 ≡ (split s).1)

collect-Delivers :
    (next : List SocketRead → PacketBuffer → List Bytes × PacketBuffer) (s : Bytes)
    (r : Next × List SocketRead × PacketBuffer)
    → Cuts s r
    → ((chunks : List Bytes) (pb : PacketBuffer)
        → IsBuffer pb
        → length (stream chunks pb) < length s
        → Delivers (next (pieces chunks) pb) (stream chunks pb))
    → Delivers (collect next r) s
unfolding collect
collect-Delivers next s r (cuts chunks pb w v left) ih =
    let b = whole_bounds s w in
    let (e, p) =
      ih chunks pb v (rw left (omega (arith, ten-le-total_len s, length-drop (total_len s) s))) in
    rw (split-whole s w, ← left) (ap (λ t. take (total_len s) s ∷ t) e, p)
collect-Delivers next s r (waits pb w v e) ih = rw (split-partial s w) (refl, e)

-- However the socket cuts up the byte stream, the reader is given the packets of the stream, each
-- once and in order, and the buffer keeps the bytes of the packet that is not whole yet.
-- `fuel` is any number of calls above the number of bytes.
pub read_all-split :
    (grow : ℕ → ℕ → ℕ) (fuel : ℕ) (chunks : List Bytes) (pb : PacketBuffer)
    → ((c n : ℕ) → n ≤ grow c n)
    → IsBuffer pb
    → length (stream chunks pb) < fuel
    → Delivers (read_all grow fuel (pieces chunks) pb) (stream chunks pb)
unfolding read_all
read_all-split grow zero chunks pb g v h = absurd (omega arith)
read_all-split grow (suc fuel) chunks pb g v h =
    collect-Delivers (read_all grow fuel) (stream chunks pb) _ (read_packet-Cuts grow chunks pb g v)
      (λ later pb' v' less. read_all-split grow fuel later pb' g v' (omega arith))
