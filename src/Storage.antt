-- ===== src/Storage.antt =====
-- The stores behind the ports.
pub mod Sqlite
pub mod Postgres
