-- ===== src/Transport/PacketBuffer/Runs.antt =====
-- Runs of the packet buffer, and the theorems at inputs.
use kama_rpc_go.Base.{ℕ, ◌*◌, ◌≤◌, true, [], ◌∷◌, ◌++◌, Bytes, some, ◌≡◌, refl, arith}
use kama_rpc_go.Protocol.Message.{big_endian}
use kama_rpc_go.Transport.PacketBuffer.{PacketBuffer, total_len, read, has_packet, write}
use kama_rpc_go.Transport.PacketBuffer.Stream.{whole}
use kama_rpc_go.Transport.PacketBuffer.Refinement.{IsBuffer, pending}

abbrev grow : ℕ → ℕ → ℕ
grow c n = n * 2

-- A packet without a header and with a body of one byte.
abbrev sample_packet : Bytes
sample_packet = 0x12 ∷ 0x34 ∷ 0 ∷ 0 ∷ 0 ∷ 0 ∷ 0 ∷ 0 ∷ 0 ∷ 1 ∷ 7 ∷ []

-- A used byte, that packet, and the first bytes of the next one; the capacity is used up.
abbrev sample_buffer : PacketBuffer
sample_buffer = record { buf = 9 ∷ (sample_packet ++ (0x12 ∷ 0x34 ∷ [])); off = 1; cap = 14 }

sample_read : read sample_buffer ≡ (
  some sample_packet,
  record { buf = 9 ∷ (sample_packet ++ (0x12 ∷ 0x34 ∷ [])); off = 12; cap = 14 },
)
unfolding read total_len big_endian
sample_read = refl

sample_has : has_packet sample_buffer ≡ true
unfolding has_packet total_len big_endian
sample_has = refl

sample_write :
    write grow sample_buffer (1 ∷ 1 ∷ [])
    ≡ record { buf = sample_packet ++ (0x12 ∷ 0x34 ∷ 1 ∷ 1 ∷ []); off = 0; cap = 30 }
unfolding write
sample_write = refl

sample_buffer-IsBuffer : IsBuffer sample_buffer
sample_buffer-IsBuffer = record { inside = omega arith; fits = omega arith }

sample_whole : whole (pending sample_buffer) ≡ true
unfolding whole total_len big_endian
sample_whole = refl

grow_lem : (c n : ℕ) → n ≤ grow c n
grow_lem c n = omega arith
