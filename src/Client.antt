-- ===== src/Client.antt =====
-- internal/clientdb: the database of claude-mem on a client.
pub mod Database
pub mod Worker
pub mod Select
pub mod Exclusions
pub mod Backfill
pub mod Undo
mod Examples
