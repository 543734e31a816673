-- ===== src/Session.antt =====
-- session.go: one session's streams and its end.
pub mod State
pub mod Shutdown
pub mod Counting
pub mod Lifecycle
pub mod Dispatch
pub mod Open
pub mod Opening
pub mod Serve
pub mod Handlers
pub mod Serving
pub mod Agreement
pub mod Forwarding
pub mod Safety
