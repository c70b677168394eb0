-- ===== src/Codec.antt =====
-- internal/core/codec: the codecs' registry and the compression of message bodies.
pub mod Compress
pub mod Registry
mod Runs
