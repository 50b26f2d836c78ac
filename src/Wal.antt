-- ===== src/Wal.antt =====
-- src/wal/: the write-ahead log.
pub mod Entry
pub mod Reader
pub mod Recovery
pub mod Writer
pub mod RoundTrip
pub mod Frames
pub mod Ends
pub mod Outcomes
pub mod Replay
pub mod Totality
pub mod Durability
pub mod Appending
pub mod Calm
pub mod Grown
pub mod Lag
pub mod Iteration
