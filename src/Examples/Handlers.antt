-- ===== src/Examples/Handlers.antt =====
-- Handlers of the example programs that write a message (examples/auth, examples/tls, examples/shell,
-- examples/exchange), the handler of examples/hub/node_b, and `downloadFiles` of
-- examples/transfer_files/client. encoding/json, os/exec and os.Stdout are parameters.
use go_wirenet.Base.{ℕ, zero, suc, Option, none, some, [], ◌∷◌, Bytes, text, if◌then◌else◌}
use go_wirenet.Go.{Error, Go, ok, err, panic, stuck}
use go_wirenet.Io.{Writer}
use go_wirenet.Stream.Conn.{Conn}
use go_wirenet.Stream.Defs.{Stream}
use go_wirenet.Stream.Transfer.{read_from}
use go_wirenet.Stream.Parts.{write_part}
use go_wirenet.Stream.ReaderWriter.{writer_close, writer_write}
use go_wirenet.Examples.Buffers.{beside, bytes_reader}
use go_wirenet.Examples.Transfer.Server.{Ran}
use go_wirenet.Examples.Transfer.Client.{read_files}
use go_wirenet.Examples.Hub.Nodes.{print_rounds}
use go_wirenet.Examples.Remote.Opening.{Opener}

module _ {S : Type 0} (c : Conn S) where
  -- examples/auth
  unfoldable pub aws_read : Stream → S → S
  aws_read s x = write_part c s (text "aws some payload" ∷ []) x

  unfoldable pub digitalocean_read : Stream → S → S
  digitalocean_read s x = write_part c s (text "digitalocean some payload" ∷ []) x

  unfoldable pub macbook_read : Stream → S → S
  macbook_read s x = write_part c s (text "macbook some payload" ∷ []) x

  -- examples/tls/server: the loop, cut after `rounds` rounds.
  unfoldable pub say_info : ℕ → Stream → S → S
  say_info zero s x = x
  say_info (suc rounds) s x =
      let rest = say_info rounds s (write_part c s (text "HELLO FROM SERVER!" ∷ []) x) in
      if s.closed then x else rest

  -- examples/shell/server: the encoder writes the JSON text `encoded` of "amount" at once.
  unfoldable pub say_amount : Bytes → Stream → S → S
  say_amount encoded s x = write_part c s (encoded ∷ []) x

  -- `ifconfig` and `envPath` of examples/shell/host_a and host_b: `run` is the command with the stream's
  -- writer for its output; the deferred Close of the writer follows.
  unfoldable pub run_command :
      ((Bytes → S → (ℕ × Option Error) × S) → S → Option Error × S) → Stream → S → Option Error × S
  run_command run s x = let (e, x') = run (λ p. writer_write c s p) x in (e, (writer_close c x').1)

  -- A round of the handlers of examples/exchange: an error of the encoder ends them, and otherwise the
  -- writer is closed.
  unfoldable pub say_quote : Bytes → Stream → S → Option Error × S
  say_quote encoded s x =
      let ((n, e), x') = writer_write c s encoded x in
      elim e [ some e' ↦ (some e', x') | none ↦ (none, (writer_close c x').1) ]

module _ {S : Type 0} (opener : Opener S) (stdout : Writer S) (fuel : ℕ) where
  -- After OpenStream of "nodeA:hello", whose error is dropped: a nil stream panics.
  abbrev pub send_letters : Go (Stream × Conn S) × S → Go (Unit {0}) × S
  send_letters (ok (t, d), x) =
      let (g, _, (x', _)) = read_from (beside d) bytes_reader fuel t (x, text "GGGGG") in
      elim g [
        | ok _ ↦ (ok tt, x')
        | err e ↦ (err e, x')
        | panic ↦ (panic, x')
        | stuck ↦ (stuck, x')
      ]
  send_letters (err e, x) = (panic, x)
  send_letters (panic, x) = (panic, x)
  send_letters (stuck, x) = (stuck, x)

  abbrev pub and_print : Conn S → ℕ → Stream → Go (Unit {0}) × S → Ran S
  and_print c rounds s (ok _, x) = print_rounds c stdout fuel rounds s x
  and_print c rounds s (err e, x) = (err e, s, x)
  and_print c rounds s (panic, x) = (panic, s, x)
  and_print c rounds s (stuck, x) = (stuck, s, x)

  -- The handler of "nodeB:hello" on the connection `c`, its loop cut after `rounds` rounds.
  unfoldable pub hello_node_b : Conn S → ℕ → Stream → S → Ran S
  hello_node_b c rounds s x =
      and_print c rounds s (send_letters (opener.open_stream (text "nodeA:hello") x))

  -- The end of `downloadFiles`: CloseWire, and the deferred Close of the stream.
  abbrev pub close_both : (S → S) → Ran S → Go (Unit {0}) × S
  close_both close_wire (ok _, s, x) = (ok tt, opener.close s (close_wire x))
  close_both close_wire (err e, s, x) = (err e, x)
  close_both close_wire (panic, s, x) = (panic, opener.close s x)
  close_both close_wire (stuck, s, x) = (stuck, x)

  abbrev pub after_stats : (S → S) → Go (Stream × Conn S) × S → Go (Unit {0}) × S
  after_stats close_wire (ok (s, c), x) = close_both close_wire (read_files c stdout fuel s x)
  after_stats close_wire (err e, x) = (ok tt, x)
  after_stats close_wire (panic, x) = (panic, x)
  after_stats close_wire (stuck, x) = (stuck, x)

  unfoldable pub download_files : (S → S) → S → Go (Unit {0}) × S
  download_files close_wire x = after_stats close_wire (opener.open_stream (text "stats") x)
