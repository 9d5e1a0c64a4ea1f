-- ===== src/Cli.antt =====
-- internal/cli: the commands of cmemlan.
pub mod Lorem
pub mod Value
pub mod Secrets
pub mod Scrub
pub mod Connect
pub mod Lock
pub mod PairCommand
pub mod Doctor
pub mod BackfillCommand
mod Examples
