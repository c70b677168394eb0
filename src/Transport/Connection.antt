-- ===== src/Transport/Connection.antt =====
-- internal/core/transport/tcp_connection.go, the reading loops ReadBorrowed and Read, and flush.
-- The socket is the list of what its calls will return.
pub mod Reading
pub mod Flushing
pub mod GroupCommit
mod Runs
use kama_rpc_go.Base.{
  ℕ, zero, suc, ◌+◌, ltb, leb, ◌==◌, if◌then◌else◌, Bool, true, false, List, [], ◌∷◌, ◌++◌, Bytes,
  length, take, drop, Option, none, some, ◌≤◌, ◌≡◌, ◌&&◌, Result, Error, ok, err,
}
use kama_rpc_go.Protocol.Message.{Message, Library, decode}
use kama_rpc_go.Protocol.Intern.{Cache}
use kama_rpc_go.Transport.PacketBuffer.{PacketBuffer, read_borrowed, write}

-- What `reader.Read(readBuf)` returns: n bytes and nil, or n bytes and an error.
pub data SocketRead : Type 0 where
  got : Bytes → SocketRead
  failed : Bytes → Error → SocketRead

-- How a call of the loop ends: with a packet, with the socket's error, or not yet, as long as
-- the socket returns nothing more.
pub data Next : Type 0 where
  packet : Bytes → Next
  broken : Error → Next
  waiting : Next

-- `if n > 0 { tc.buffer.Write(tc.readBuf[:n]) }`
pub store : (ℕ → ℕ → ℕ) → PacketBuffer → Bytes → PacketBuffer
store grow pb [] = pb
store grow pb (b ∷ bytes) = write grow pb (b ∷ bytes)

-- The first look into the buffer, and what is done when it holds no packet.
first_packet :
    List SocketRead
    → Option Bytes × PacketBuffer
    → Next × List SocketRead × PacketBuffer
    → Next × List SocketRead × PacketBuffer
first_packet reads (some p, pb) otherwise = (packet p, reads, pb)
first_packet reads (none, pb) otherwise = otherwise

-- The loop of ReadBorrowed and of Read, up to the packet: look into the buffer, and read from the
-- socket as long as there is no packet in it.
pub read_packet :
    (ℕ → ℕ → ℕ) → List SocketRead → PacketBuffer → Next × List SocketRead × PacketBuffer
read_packet grow [] pb = first_packet [] (read_borrowed pb) (waiting, [], pb)
read_packet grow (got bytes ∷ reads) pb =
    let more = read_packet grow reads (store grow pb bytes) in
    first_packet (got bytes ∷ reads) (read_borrowed pb) more
read_packet grow (failed bytes e ∷ reads) pb =
    first_packet (failed bytes e ∷ reads) (read_borrowed pb) (broken e, reads, store grow pb bytes)

-- What ReadBorrowed and Read return for a packet: the message, or the error of decoding it.
pub data Received : Type 0 where
  message : Message → Received
  refused : Error → Received
  blocked : Received

of_decoded : Result Message × Cache → Received × Cache
of_decoded (ok m, c) = (message m, c)
of_decoded (err e, c) = (refused e, c)

received : Library → Next → Cache → Received × Cache
received lib (packet p) c = of_decoded (decode lib p c)
received lib (broken e) c = (refused e, c)
received lib waiting c = (blocked, c)

pub read_message :
    Library
    → (ℕ → ℕ → ℕ)
    → List SocketRead
    → PacketBuffer
    → Cache
    → (Received × Cache) × List SocketRead × PacketBuffer
read_message lib grow reads pb c =
    let r = read_packet grow reads pb in (received lib r.0 c, r.1, r.2)

-- What `conn.Write` returns: n and nil, or an error.
pub data SocketWrite : Type 0 where
  wrote : ℕ → SocketWrite
  write_failed : Error → SocketWrite

-- flush's loop: what reached the socket, and the result; `none` while a write has not returned.
unfoldable pub flush_from : List SocketWrite → Bytes → ℕ → Bytes × Option (Result (Unit {0}))
flush_from [] bytes total = ([], if ltb total (length bytes) then none else some (ok tt))
flush_from (write_failed e ∷ writes) bytes total =
    ([], if ltb total (length bytes) then some (err e) else some (ok tt))
flush_from (wrote n ∷ writes) bytes total =
    let more = flush_from writes bytes (total + n) in
    if ltb total (length bytes)
    then (take n (drop total bytes) ++ more.0, more.1)
    else ([], some (ok tt))

unfoldable pub flush : List SocketWrite → Bytes → Bytes × Option (Result (Unit {0}))
flush writes bytes = flush_from writes bytes 0
