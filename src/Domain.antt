-- ===== src/Domain.antt =====
-- The protocol-neutral types and the pure rules of crates/slg-domain/src/lib.rs.
pub mod Failure
pub mod Route
pub mod Credential
pub mod Evidence
pub mod Message
pub mod Plan
