-- ===== src/Examples/Keyboard.antt =====
-- The keyboard example (examples/keyboard): a command line that is sent to every session.
pub mod Shell
pub mod Exec
