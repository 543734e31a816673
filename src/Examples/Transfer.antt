-- ===== src/Examples/Transfer.antt =====
-- The file server and its client (examples/transfer_files).
pub mod Server
pub mod Client
pub mod Sending
pub mod Naming
pub mod Receiving
pub mod Delivery
