-- ===== src/Examples/Remote/Opening.antt =====
-- A session as the examples use it: its OpenStream, with the connection of the stream, the Close of such a
-- stream, and its own Close.
use go_wirenet.Base.{Option, Bytes}
use go_wirenet.Go.{Error, Go, ok, err, panic, stuck}
use go_wirenet.Stream.Conn.{Conn}
use go_wirenet.Stream.Defs.{Stream}
use go_wirenet.Session.State.{Session, close_stream}
use go_wirenet.Session.Serve.{open_named_stream}

pub record Opener (S : Type 0) : Type 0 where
  pub open_stream : Bytes → S → Go (Stream × Conn S) × S
  pub close : Stream → S → S
  pub close_session : S → Option Error × S

-- The world of a connection and of the session beside it.
abbrev pub conn_beside : {S : Type 0} → Conn S → Conn (S × Session)
conn_beside c = record {
  reader = record {
    read =
        λ x n. ((c.reader.read x.0 n).0, (c.reader.read x.0 n).1, ((c.reader.read x.0 n).2, x.1));
  };
  writer = record {
    write = λ x p.
        ((c.writer.write x.0 p).0, (c.writer.write x.0 p).1, ((c.writer.write x.0 p).2, x.1));
  };
  sess_closed = λ x. x.1.closed;
}

abbrev pub with_conn :
    {S : Type 0}
    → Conn S
    → Session
    → Go (Stream × Session) × S
    → Go (Stream × Conn (S × Session)) × (S × Session)
with_conn c sess (ok (s, sess'), x) = (ok (s, conn_beside c), (x, sess'))
with_conn c sess (err e, x) = (err e, (x, sess))
with_conn c sess (panic, x) = (panic, (x, sess))
with_conn c sess (stuck, x) = (stuck, (x, sess))

-- The library's session over a connection that the multiplexer opens, with the error of its OpenStream;
-- `id` is the new stream's, and `closing` the session's Close.
abbrev pub session_opener :
    {S : Type 0}
    → Conn S
    → Option Error
    → Bytes
    → Bytes
    → (S × Session → Option Error × (S × Session))
    → Opener (S × Session)
session_opener c mux token id closing = record {
  open_stream =
      λ name x. with_conn c x.1 (open_named_stream c.reader c.writer mux token id name x.1 x.0);
  close = λ s x. (x.0, (close_stream s x.1).1);
  close_session = closing;
}
