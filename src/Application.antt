-- ===== src/Application.antt =====
-- The use cases that coordinate the router with the ports (crates/slg-application/src/lib.rs).
pub mod Attempt
pub mod Monad
pub mod Gateway
pub mod Stream
