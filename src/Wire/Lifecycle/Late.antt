-- ===== src/Wire/Lifecycle/Late.antt =====
-- A session whose handshake ends after the goroutine of shutdown has copied the sessions.
use go_wirenet.Wire.State.{Wire}
