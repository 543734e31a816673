-- ===== src/Errors.antt =====
-- errors.go: the errors that carry more than a text.
pub mod Defs
