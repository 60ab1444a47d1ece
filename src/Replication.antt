-- ===== src/Replication.antt =====
-- ecsdb/src/replication: what the server sends to its clients.
pub mod Frame
pub mod Clients
pub mod DeltaLog
pub mod Broadcast
pub mod Sync
pub mod Conflict
