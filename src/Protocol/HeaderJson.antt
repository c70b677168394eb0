-- ===== src/Protocol/HeaderJson.antt =====
-- internal/core/protocol/header_json.go: protocol v1, whose header is JSON.
pub mod Encode
pub mod Scan
pub mod Parse
pub mod Scanning
pub mod RoundTrip
mod Runs
