-- ===== src/Protocol.antt =====
-- internal/core/protocol: the header, its two encodings, and the framed message.
pub mod Uvarint
pub mod Intern
pub mod Header
pub mod HeaderBinary
pub mod HeaderJson
pub mod Message
