-- ===== src/Examples/Payload/Rounds.antt =====
-- examples/bytes/server/main.go: the handler of "bytes"; and a round of the client's loop in
-- examples/bytes/client/main.go once its stream is open. The random payload, the closing of the stream and
-- standard output are parameters; the pause is left out.
use go_wirenet.Base.{ℕ, Option, some, none, [], Bytes}
use go_wirenet.Go.{Error, Go, ok, err, panic, stuck}
use go_wirenet.Stream.Conn.{Conn}
use go_wirenet.Stream.Defs.{Stream}
use go_wirenet.Stream.Transfer.{Moved, read_from, write_to}
use go_wirenet.Examples.Buffers.{bytes_reader, bytes_buffer, beside}

module _ {S : Type 0} (c : Conn S) (fuel : ℕ) where
  -- What the handler prints: ReadFrom's error.
  abbrev pub printed_error : Moved (S × Bytes) → Go (Option Error) × S
  printed_error (ok (n, e), s, x) = (ok e, x.0)
  printed_error (err e, s, x) = (err e, x.0)
  printed_error (panic, s, x) = (panic, x.0)
  printed_error (stuck, s, x) = (stuck, x.0)

  unfoldable pub send_payload : Bytes → Stream → S → Go (Option Error) × S
  send_payload payload s x = printed_error (read_from (beside c) bytes_reader fuel s (x, payload))

  -- `stream.Close()`, and the buffer whose length is printed. An error ends the program: it is `err`.
  abbrev pub close_and_print : (S → Option Error × S) → S → Bytes → Go Bytes × S
  close_and_print close x b =
      let (e, x') = close x in elim e [ some e' ↦ (err e', x') | none ↦ (ok b, x') ]

  abbrev pub after_write_to : (S → Option Error × S) → Moved (S × Bytes) → Go Bytes × S
  after_write_to close (ok (n, some e), s, (x, b)) = (err e, x)
  after_write_to close (ok (n, none), s, (x, b)) = close_and_print close x b
  after_write_to close (err e, s, (x, b)) = (err e, x)
  after_write_to close (panic, s, (x, b)) = (panic, x)
  after_write_to close (stuck, s, (x, b)) = (stuck, x)

  -- `buf.Reset()` empties the buffer.
  unfoldable pub read_payload : (S → Option Error × S) → Stream → S → Go Bytes × S
  read_payload close s x = after_write_to close (write_to (beside c) bytes_buffer fuel s (x, []))
