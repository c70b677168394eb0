-- ===== src/Transport/PacketBuffer/Refinement.antt =====
-- PacketBuffer refines a byte stream: its contents are the bytes behind the read offset.
use kama_rpc_go.Base.{
  ℕ, ◌+◌, ◌≤◌, ◌≡◌, refl, sym, arith, ◌==◌, true, false, ◌++◌, Bytes, length, take, drop, none,
  some, length-append, length-drop, drop-append_le, drop_all, drop-drop, Bool-cases, inl, inr,
}
use kama_rpc_go.Transport.PacketBuffer.{
  PacketBuffer, total_len, advance, read_borrowed, has_packet, compact, write, new_packet_buffer,
}
use kama_rpc_go.Transport.PacketBuffer.Stream.{whole, whole_bounds}

-- What was written and not yet read.
abbrev pub pending : PacketBuffer → Bytes
pending pb = drop pb.off pb.buf

-- The offset is inside the buffer, and the buffer inside its capacity.
pub record IsBuffer (pb : PacketBuffer) : Type 0 where
  pub inside : pb.off ≤ length pb.buf
  pub fits : length pb.buf ≤ pb.cap

pub new_packet_buffer-IsBuffer : IsBuffer new_packet_buffer
unfolding new_packet_buffer
new_packet_buffer-IsBuffer = omega arith

advance-pending :
    (pb : PacketBuffer) (n : ℕ)
    → n ≤ length (pending pb)
    → IsBuffer pb
    → (pending (advance pb n) ≡ drop n (pending pb)) × IsBuffer (advance pb n)
unfolding advance
advance-pending pb n h v = elim (Bool-cases (pb.off + n == length pb.buf)) [
  | inl all ↦ rw all (
    sym (drop_all n (pending pb) (ground (arith, length-drop pb.off pb.buf))),
    record { inside = omega arith; fits = omega arith },
  )
  | inr some_left ↦ rw some_left (
    sym (drop-drop n pb.off pb.buf),
    record { inside = omega (arith, v, length-drop pb.off pb.buf); fits = v.fits },
  )
]

-- A read from a well formed buffer that begins with a whole packet returns that packet, takes it off
-- the front, and leaves a well formed buffer.
pub read_borrowed-whole :
    (pb : PacketBuffer)
    → IsBuffer pb
    → whole (pending pb) ≡ true
    → ((read_borrowed pb).0 ≡ some (take (total_len (pending pb)) (pending pb)))
      × (pending (read_borrowed pb).1 ≡ drop (total_len (pending pb)) (pending pb))
      × IsBuffer (read_borrowed pb).1
unfolding read_borrowed whole
read_borrowed-whole pb v w =
    ground (arith, advance-pending pb (total_len (pending pb)) (whole_bounds (pending pb) w).1 v)

-- From any other buffer it takes nothing.
pub read_borrowed-partial :
    (pb : PacketBuffer) → whole (pending pb) ≡ false → read_borrowed pb ≡ (none, pb)
unfolding read_borrowed whole
read_borrowed-partial pb w = ground arith

compact-pending :
    (pb : PacketBuffer) (n : ℕ)
    → IsBuffer pb
    → (pending (compact pb n) ≡ pending pb) × IsBuffer (compact pb n)
unfolding compact
compact-pending pb n v = ground (arith, length-drop pb.off pb.buf)

-- Write puts the bytes behind the pending ones, whether or not it drops the used prefix, and keeps
-- the buffer well formed, if an enlarged slice has room for what it was enlarged for.
pub write-pending :
    (grow : ℕ → ℕ → ℕ) (pb : PacketBuffer) (bytes : Bytes)
    → ((c n : ℕ) → n ≤ grow c n)
    → IsBuffer pb
    → (pending (write grow pb bytes) ≡ pending pb ++ bytes) × IsBuffer (write grow pb bytes)
unfolding write
write-pending grow pb bytes g v =
    let pb' = compact pb (length bytes) in
    let (e, v') = compact-pending pb (length bytes) v in
    let n : ℕ = length pb'.buf + length bytes in
    (
      rw (drop-append_le pb'.off pb'.buf bytes v'.inside, e),
      record {
        inside = omega (arith, v'.inside, length-append pb'.buf bytes);
        fits = ground (arith, g pb'.cap n, length-append pb'.buf bytes);
      },
    )

-- HasPacket tells whether the next read finds a packet.
pub has_packet-whole : (pb : PacketBuffer) → has_packet pb ≡ whole (pending pb)
unfolding has_packet whole
has_packet-whole pb = refl
