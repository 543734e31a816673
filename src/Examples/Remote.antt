-- ===== src/Examples/Remote.antt =====
-- Programs that open streams of a session (examples/shell, examples/exchange, examples/tls).
pub mod Opening
pub mod Commands
pub mod Printing
