-- ===== src/Stream/Pipe.antt =====
-- pipe (stream.go): the copy between two connections that the hub runs in both directions.
use go_wirenet.Base.{ℕ, zero, suc, Option, none, some, length, ◌==◌, if◌then◌else◌}
use go_wirenet.Go.{Error, short_write, is_eof, Go, ok, stuck}
use go_wirenet.Io.{Reader, Writer}

module _ {S : Type 0} (src : Reader S) (dst : Writer S) where
  -- The result is the error that `pipe` returns; the buffer has `limit` bytes.
  unfoldable pub pipe_loop : ℕ → ℕ → S → Go (Option Error) × S
  pipe_loop limit zero s = (stuck, s)
  pipe_loop limit (suc fuel) s =
      let (bytes, er, s1) = src.read s limit in
      let (wn, ew, s2) = dst.write s1 bytes in
      let rest = pipe_loop limit fuel s2 in
      elim er [
        | some e ↦ (ok (if is_eof e then none else some e), s1)
        | none ↦ elim ew [
          | some e ↦ (ok (some e), s2)
          | none ↦ if length bytes == wn then rest else (ok (some short_write), s2)
        ]
      ]

  unfoldable pub pipe : ℕ → S → Go (Option Error) × S
  unfolding pipe_loop
  pipe fuel s = pipe_loop 1024 fuel s
