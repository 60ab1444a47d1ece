-- ===== src/Storage.antt =====
-- ecsdb/src/storage.
pub mod Buffer
pub mod Table
pub mod Delta
pub mod Sparse
