-- ===== src/Transport/Connection/Runs.antt =====
-- Runs of the reading and the writing loops, and the theorems at inputs.
use kama_rpc_go.Base.{
  flatten, ℕ, ◌*◌, ◌≤◌, List, [], ◌∷◌, Bytes, map, some, ok, pool_closed, ◌≡◌, refl, arith,
}
use kama_rpc_go.Transport.PacketBuffer.{PacketBuffer, total_len, read_borrowed, write}
use kama_rpc_go.Protocol.Message.{big_endian}
use kama_rpc_go.Transport.PacketBuffer.Refinement.{IsBuffer}
use kama_rpc_go.Transport.Connection.{
  SocketWrite, wrote, failed, broken, store, first_packet, read_packet, flush_from, flush,
}
use kama_rpc_go.Transport.Connection.Reading.{
  stream, pieces, collect, read_all, Delivers, read_all-split,
}
use kama_rpc_go.Transport.Connection.Flushing.{flush-ok, flush-returns}

abbrev grow : ℕ → ℕ → ℕ
grow c n = n * 2

grow_lem : (c n : ℕ) → n ≤ grow c n
grow_lem c n = omega arith

abbrev empty_buffer : PacketBuffer
empty_buffer = record { buf = []; off = 0; cap = 8192 }

empty_buffer-IsBuffer : IsBuffer empty_buffer
empty_buffer-IsBuffer = record { inside = omega arith; fits = omega arith }

-- Two packets and the beginning of a third, in three pieces.
abbrev chunks : List Bytes
chunks =
    (0x12 ∷ 0x34 ∷ 0 ∷ 0 ∷ 0 ∷ 0 ∷ [])
    ∷ (0 ∷ 0 ∷ 0 ∷ 1 ∷ 7 ∷ 0x12 ∷ [])
    ∷ (0x34 ∷ 0 ∷ 0 ∷ 0 ∷ 1 ∷ 0 ∷ 0 ∷ 0 ∷ 0 ∷ 8 ∷ 0x12 ∷ [])
    ∷ []

abbrev packets : List Bytes
packets =
    (0x12 ∷ 0x34 ∷ 0 ∷ 0 ∷ 0 ∷ 0 ∷ 0 ∷ 0 ∷ 0 ∷ 1 ∷ 7 ∷ [])
    ∷ (0x12 ∷ 0x34 ∷ 0 ∷ 0 ∷ 0 ∷ 1 ∷ 0 ∷ 0 ∷ 0 ∷ 0 ∷ 8 ∷ [])
    ∷ []

two_packets : (read_all grow 4 (pieces chunks) empty_buffer).0 ≡ packets
unfolding read_all collect read_packet first_packet store total_len read_borrowed write big_endian
two_packets = refl

read_all-split_example :
    Delivers (read_all grow 24 (pieces chunks) empty_buffer) (stream chunks empty_buffer)
unfolding flatten
read_all-split_example =
    read_all-split grow 24 chunks empty_buffer grow_lem empty_buffer-IsBuffer (omega arith)

-- The bytes that come with an error are kept.
breaks :
    read_packet grow (failed (1 ∷ []) pool_closed ∷ []) empty_buffer
    ≡ (broken pool_closed, [], record { buf = 1 ∷ []; off = 0; cap = 8192 })
unfolding read_packet first_packet store read_borrowed write
breaks = refl

abbrev partial_writes : List SocketWrite
partial_writes = wrote 2 ∷ wrote 0 ∷ wrote 1 ∷ []

partial_run : (flush partial_writes (1 ∷ 2 ∷ 3 ∷ [])).1 ≡ some (ok tt)
unfolding flush flush_from
partial_run = refl

flush-ok_example : (flush partial_writes (1 ∷ 2 ∷ 3 ∷ [])).0 ≡ 1 ∷ 2 ∷ 3 ∷ []
flush-ok_example = flush-ok partial_writes (1 ∷ 2 ∷ 3 ∷ []) partial_run

flush-returns_example :
    flush (map wrote (2 ∷ 1 ∷ 5 ∷ [])) (1 ∷ 2 ∷ 3 ∷ []) ≡ (1 ∷ 2 ∷ 3 ∷ [], some (ok tt))
flush-returns_example =
    flush-returns (2 ∷ 1 ∷ 5 ∷ []) (1 ∷ 2 ∷ 3 ∷ []) (omega arith, (omega arith, (omega arith, tt)))
      (omega arith)
