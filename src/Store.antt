-- ===== src/Store.antt =====
-- internal/store: the append-only operation log.
pub mod Tables
pub mod Env
pub mod Devices
pub mod Invariant
pub mod Open
pub mod Push
pub mod Changes
pub mod Steps
mod Examples
