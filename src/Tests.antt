-- ===== src/Tests.antt =====
-- Runs on concrete inputs, and the theorems at inputs that meet their hypotheses.
pub mod Frames
pub mod Exchanges
pub mod Handshakes
pub mod Streams
pub mod Sessions
pub mod Wires
pub mod Transfers
pub mod Settings
pub mod Shutdowns
pub mod Dials
pub mod Networks
pub mod Orders
pub mod Lifecycles
pub mod Hubs
pub mod Serving
pub mod Hazards
pub mod Openings
pub mod Readers
pub mod Accepting
pub mod Agreements
pub mod Forwardings
pub mod Reconnects
pub mod Programs
pub mod Remotes
pub mod Auths
