-- ===== src/Wire.antt =====
-- wirenet.go and options.go: the end point, its registry of sessions, its life.
pub mod State
pub mod Options
pub mod Fresh
pub mod Registry
pub mod Index
pub mod Offers
pub mod Close
pub mod Backoff
pub mod Client
pub mod Server
pub mod Serving
pub mod Network
pub mod Connect
pub mod Handshake
pub mod Control
pub mod Retry
pub mod Ending
pub mod Refusal
pub mod Agreement
pub mod Safety
pub mod Closing
pub mod Order
pub mod Lifecycle
