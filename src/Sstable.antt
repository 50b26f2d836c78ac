-- ===== src/Sstable.antt =====
-- src/storage/sstable/: the files of sorted entries.
pub mod Format
pub mod Builder
pub mod Reader
pub mod Written
pub mod Index
pub mod Lookup
pub mod Opened
pub mod Iterator
pub mod Room
