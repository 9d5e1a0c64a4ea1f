-- ===== src/Proto.antt =====
-- internal/proto: the values that cross the wire.
pub mod Dec
pub mod Errors
pub mod Op
pub mod Emit
pub mod Unquote
pub mod Json
pub mod Fields
pub mod Parse
pub mod Digest
pub mod Examples
