-- ===== src/Stream/Conn.antt =====
-- What a stream works on: its connection (`*yamux.Stream`) and its session's closed flag, both part
-- of a world `S` that other goroutines may change between two calls.
use go_wirenet.Base.{Bool}
use go_wirenet.Io.{Reader, Writer}

pub record Conn (S : Type 0) : Type 0 where
  pub reader : Reader S
  pub writer : Writer S
  -- `s.sess.IsClosed()`
  pub sess_closed : S → Bool
