-- ===== src/Frame.antt =====
-- frame.go: the frames that open sessions and streams.
pub mod Format
pub mod Encoder
pub mod Decoder
pub mod Fields
pub mod Exchange
pub mod Shape
pub mod Written
pub mod RoundTrip
pub mod Truncation
pub mod Apart
pub mod Replies
pub mod Safety
