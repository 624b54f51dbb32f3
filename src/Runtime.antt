-- ===== src/Runtime.antt =====
-- What keeps a gateway running while its primary store is away (crates/slg-runtime/src/lib.rs).
pub mod Snapshot
pub mod Spool
pub mod Store
