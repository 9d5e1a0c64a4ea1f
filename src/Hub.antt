-- ===== src/Hub.antt =====
-- internal/hub: the HTTP side of the hub, over the store and the pairing window.
pub mod Server
pub mod Handlers
pub mod Push
pub mod Route
pub mod Access
pub mod Reads
pub mod Bind
pub mod Listener
pub mod Digits
pub mod Limit
pub mod Record
mod Examples
mod BindExamples
