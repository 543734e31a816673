-- ===== src/Stream.antt =====
-- stream.go: named streams, their chunks, and the reader and writer over one.
pub mod Conn
pub mod Defs
pub mod Transfer
pub mod Chunks
pub mod Delivery
pub mod Chunking
pub mod Crossing
pub mod ReaderWriter
pub mod Boundaries
pub mod Stalling
pub mod Pipe
pub mod Copying
pub mod Filling
pub mod Buffering
pub mod Reading
pub mod Ready
pub mod Keeping
pub mod Last
pub mod Parts
pub mod Messages
pub mod Steady
