-- ===== src/Transport.antt =====
-- internal/core/transport: framing over a byte stream, writes, futures, the client of one
-- connection and the pool of connections.
pub mod PacketBuffer
pub mod Connection
pub mod Future
pub mod Pending
pub mod TcpClient
pub mod Pool
