-- ===== src/Examples/Payload.antt =====
-- The bytes example (examples/bytes): a client reads the same payload again and again.
pub mod Rounds
pub mod Delivery
