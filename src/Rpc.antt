-- ===== src/Rpc.antt =====
-- A call from end to end, over internal/core/transport/tcp_client.go and internal/server/server.go:
-- the request is encoded, sent, decoded, served and answered, and the answer is decoded and
-- completes the call's future.
mod Endings
mod Serving
pub mod Session
pub mod AnyOrder
mod Runs
