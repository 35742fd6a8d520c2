-- ===== src/Wal.antt =====
-- src/wal.rs: the operation log and its batches, and the snapshot that a restart restores.
pub mod Snapshot
pub mod Batch
pub mod Log
