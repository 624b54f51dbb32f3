-- ===== src/Provider.antt =====
-- The OpenAI-compatible provider (crates/slg-adapter-provider/src/lib.rs).
pub mod Classify
pub mod Usage
