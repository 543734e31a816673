-- ===== src/Examples.antt =====
-- The example programs (examples/) as clients of the library.
pub mod Transfer
pub mod Hub
pub mod Buffers
pub mod Keyboard
pub mod Payload
pub mod Auth
pub mod Remote
pub mod Reconnect
pub mod Handlers
pub mod Programs
pub mod Peers
