-- ===== src/Cli.antt =====
-- The command line's own logic (crates/smart-llm-gateway/src/main.rs): the reports on accounting, and the
-- snapshot that a PostgreSQL gateway keeps.
pub mod Report
pub mod Export
