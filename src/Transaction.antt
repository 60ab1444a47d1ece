-- ===== src/Transaction.antt =====
-- ecsdb/src/transaction.
pub mod Wal
pub mod WriteQueue
