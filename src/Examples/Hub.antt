-- ===== src/Examples/Hub.antt =====
-- The nodes of the hub example (examples/hub).
pub mod Nodes
pub mod Delivery
