-- ===== src/Client.antt =====
-- ecsdb_client/src: the client's copy of the database.
pub mod Db
