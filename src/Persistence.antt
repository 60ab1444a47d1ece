-- ===== src/Persistence.antt =====
-- ecsdb/src/persistence.
pub mod Replay
pub mod Recovery
pub mod FileWal
pub mod SnapshotOps
