-- ===== src/Wire/Lifecycle/Sequential.antt =====
-- One call of a wire's `Close` among the goroutines, and `close_wire`, which runs it at one go.
use go_wirenet.Base.Assoc.{Assoc}
use go_wirenet.Wire.State.{Wire}
