-- ===== src/Io.antt =====
-- The byte streams that the program is given: io.Reader and io.Writer as `*yamux.Stream`, a user's
-- reader or a user's writer implement them. They are parameters: `S` is the state of the world
-- that they read and change, and the records of laws state what their documentation promises.
mod Streams
pub mod Copy
pub mod Chunked
pub use Streams.*
