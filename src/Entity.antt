-- ===== src/Entity.antt =====
-- ecsdb/src/entity.
pub mod Registry
pub mod ArchetypeMask
pub mod Archetype
