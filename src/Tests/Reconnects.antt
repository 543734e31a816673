-- ===== src/Tests/Reconnects.antt =====
-- The greetings of examples/reconnect on concrete connections.
use go_wirenet.Base.{false, ◌≡◌, refl, [], put_uint32, uint32, ◌++◌}
use go_wirenet.Go.{ok}
use go_wirenet.Io.Chunked.{Wires, reader, writer}
use go_wirenet.Stream.Conn.{Conn}
use go_wirenet.Stream.Defs.{Stream, new_stream, read_header, write_eof, write_hdr}
use go_wirenet.Stream.ReaderWriter.{reader_read, writer_close, writer_write}
use go_wirenet.Examples.Hub.Nodes.{decimal}
use go_wirenet.Examples.Reconnect.{read_greetings, say_greetings}

abbrev wires : Conn Wires
wires = record { reader = reader 64; writer = writer; sess_closed = λ _. false }

abbrev hello : Stream
hello = new_stream [] []

-- What the server writes for a client that starts with the number 0.
abbrev greetings : Wires
greetings = record {
  inbox =
      (say_greetings wires 9 hello
        (record { inbox = put_uint32 4 ++ (put_uint32 0 ++ put_uint32 0); outbox = [] })).1.outbox;
  outbox = [];
}

-- A client that has got all 21 greetings has counted 15 Reads, and does not close its wire.
fifteen_reads : (read_greetings wires writer 100 0 hello greetings).0 ≡ ok (15, false)
unfolding read_greetings reader_read new_stream read_header writer_close write_eof writer_write
    write_hdr say_greetings put_uint32 uint32 decimal
fifteen_reads = refl
