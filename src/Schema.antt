-- ===== src/Schema.antt =====
-- ecsdb/src/schema and ecsdb/src/storage/layout.rs: the schema, its validation and the layout of
-- records.
pub mod Types
pub mod Layout
pub mod Validator
