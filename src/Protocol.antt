-- ===== src/Protocol.antt =====
-- src/protocol/: commands, responses, and their encoding on the wire.
pub mod Command
pub mod Response
pub mod Codec
pub mod Stream
pub mod RoundTrip
pub mod Pipeline
pub mod Refusals
