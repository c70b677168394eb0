-- ===== src/Transport/PacketBuffer.antt =====
-- internal/core/transport/tcp_connection.go, PacketBuffer: the bytes that were read from a socket
-- and not yet cut into packets. `buf` is the slice up to its length, `cap` its capacity. The lock
-- makes each method one step.
pub mod Stream
pub mod Refinement
mod Runs
use kama_rpc_go.Base.{
  ◌*◌, ℕ, zero, suc, ◌+◌, ltb, leb, ◌==◌, if◌then◌else◌, Bool, true, false, List, [], ◌∷◌, ◌++◌,
  Bytes, length, take, drop, Option, none, some, ◌≤◌, ◌≡◌, ◌&&◌, Result, Error, ok, err,
}
use kama_rpc_go.Protocol.Header.{header_fixed_len}
use kama_rpc_go.Protocol.HeaderBinary.{slice}
use kama_rpc_go.Protocol.Message.{Message, Library, decode_header_len, decode_body_len, decode}
use kama_rpc_go.Protocol.Intern.{Cache}

pub record PacketBuffer : Type 0 where
  pub buf : Bytes
  pub off : ℕ
  pub cap : ℕ

abbrev pub buffer_size : ℕ
buffer_size = 4096

-- The buffer of NewTCPConnection.
unfoldable pub new_packet_buffer : PacketBuffer
new_packet_buffer = record { buf = []; off = 0; cap = buffer_size * 2 }

-- HeaderFixedLen + headerLen + bodyLen, from the first ten bytes.
unfoldable pub total_len : Bytes → ℕ
total_len bytes =
    header_fixed_len + decode_header_len (slice bytes 2 6) + decode_body_len (slice bytes 6 10)

-- The read offset after a packet: a buffer that is used up begins again.
advance : PacketBuffer → ℕ → PacketBuffer
advance pb n =
    if pb.off + n == length pb.buf
    then record pb { buf = []; off = 0 }
    else record pb { off = pb.off + n }

unfoldable pub read_borrowed : PacketBuffer → Option Bytes × PacketBuffer
unfolding advance
read_borrowed pb =
    let bytes = drop pb.off pb.buf in
    if ltb (length bytes) header_fixed_len
    then (none, pb)
    else if ltb (length bytes) (total_len bytes)
    then (none, pb)
    else (some (take (total_len bytes) bytes), advance pb (total_len bytes))

-- Read: the packet is copied, and the copy has the same bytes.
pub read : PacketBuffer → Option Bytes × PacketBuffer
unfolding read_borrowed
read pb = read_borrowed pb

pub has_packet : PacketBuffer → Bool
has_packet pb =
    let bytes = drop pb.off pb.buf in
    if ltb (length bytes) header_fixed_len then false else leb (total_len bytes) (length bytes)

-- The used prefix is dropped when the new bytes would not fit behind it.
compact : PacketBuffer → ℕ → PacketBuffer
compact pb n =
    if ltb 0 pb.off && ltb pb.cap (length pb.buf + n)
    then record pb { buf = drop pb.off pb.buf; off = 0 }
    else pb

-- `grow` is the capacity that `append` gives a slice which must be enlarged: Go leaves it open.
unfoldable pub write : (ℕ → ℕ → ℕ) → PacketBuffer → Bytes → PacketBuffer
unfolding compact
write grow pb bytes =
    let pb = compact pb (length bytes) in
    let n = length pb.buf + length bytes in
    record pb { buf = pb.buf ++ bytes; cap = if leb n pb.cap then pb.cap else grow pb.cap n }
