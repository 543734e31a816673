-- ===== src/Session/Serve.antt =====
-- dispatchStream, serve and serveHub of a session (session.go), and what they hand to the error
-- handler.
use go_wirenet.Base.{
  ℕ, Bool, false, Option, none, some, List, [], ◌∷◌, ◌++◌, Bytes, text, if◌then◌else◌,
}
use go_wirenet.Go.{
  Error, other, session_closed, pure, throw, is_session_not_found, Go, ok, err, panic, stuck, M,
  ◌>>=◌, ◌>>◌, or_throw,
}
use go_wirenet.Io.{Reader, Writer}
use go_wirenet.Errors.Defs.{OpError}
use go_wirenet.Frame.Format.{Frame, command}
use go_wirenet.Stream.Defs.{Stream, new_stream}
use go_wirenet.Stream.Pipe.{pipe}
use go_wirenet.Wire.State.{Peer, Wire}
use go_wirenet.Wire.Registry.{find_handler, find_session}
use go_wirenet.Session.State.{Session, register_stream, close_stream}
use go_wirenet.Session.Dispatch.{is_hub_side, read_frame, open_stream}

-- `errLog`: what the error handler gets, with the texts of the connection's addresses.
unfoldable pub err_log : Bytes → Bytes → Session → Error → Bytes → OpError
err_log local remote s e op = record {
  op = op;
  session_id = s.id;
  local_addr = some local;
  remote_addr = some remote;
  identification = s.identification;
  cause = some e;
}

module _ {S : Type 0} (forward : Peer → Bytes → M S (Unit {0})) where
  abbrev pub after_find : Bytes → Go Peer → M S (Unit {0})
  after_find name (ok p) s = forward p name s
  after_find name (err e) s = (err e, s)
  after_find name panic s = (panic, s)
  after_find name stuck s = (stuck, s)

  -- `serveHub`: `forward` opens the stream of the other session and copies.
  unfoldable pub serve_hub_stream : {H : Type 0} → Wire H → Bytes → M S (Unit {0})
  serve_hub_stream w name = after_find name (find_session name w)

-- How a handler ends: the stream and the session as they are then, or the text of its panic and
-- the session.
pub data Ran : Type 0 where
  returned : Stream → Session → Ran
  panicked : Bytes → Session → Ran

-- A result of `serve`: the error, what was logged meanwhile, and the session.
abbrev pub Served : Type 0
Served = Option Error × List OpError × Session

module _ {H : Type 0} (w : Wire H) (run : H → Stream → Session → Ran) (local remote : Bytes) where
  -- The end of `serve`: a panic is logged and nothing else is done.
  abbrev pub after_handler : Ran → Served
  after_handler (returned t s) = (none, [], if t.closed then s else (close_stream t s).1)
  after_handler (panicked v s) =
      (none, err_log local remote s (other (text "recover " ++ v)) (text "recover stream") ∷ [], s)

  -- `id` is the new stream's.
  unfoldable pub serve_stream : Bytes → Bytes → Session → Served
  unfolding new_stream
  serve_stream id name s =
      let t : Stream = new_stream id name in
      elim (find_handler name w) [
        | ok h ↦ after_handler (run h t (register_stream t s))
        | err e ↦ (some e, [], s)
        | panic ↦ (none, [], s)
        | stuck ↦ (none, [], s)
      ]

  -- `if err != nil { s.errLog(ctx, err, "serve stream") }`
  abbrev pub log_served : Served → List OpError × Session
  log_served (none, logged, s) = (logged, s)
  log_served (some e, logged, s) =
      (logged ++ err_log local remote s e (text "serve stream") ∷ [], s)

  module _ {S : Type 0} (forward : Peer → Bytes → M S (Unit {0})) where
    -- The end of `serveHub` in `dispatchStream`: ErrSessionNotFound makes the session serve itself.
    abbrev pub after_hub :
        Bytes → Bytes → Session → Go (Unit {0}) × S → Go (List OpError × Session) × S
    after_hub id name s (ok _, x) = (ok ([], s), x)
    after_hub id name s (err e, x) = (
      ok (
          if is_session_not_found e
          then log_served (serve_stream id name s)
          else log_served (some e, [], s)),
      x,
    )
    after_hub id name s (panic, x) = (panic, x)
    after_hub id name s (stuck, x) = (stuck, x)

    -- A stream whose frame has passed the checks.
    unfoldable pub dispatch_name : Bytes → Bytes → Session → S → Go (List OpError × Session) × S
    unfolding serve_stream serve_hub_stream is_hub_side
    dispatch_name id name s x =
        if is_hub_side w
        then after_hub id name s (serve_hub_stream forward w name x)
        else (ok (log_served (serve_stream id name s)), x)

    abbrev pub log_invalid : Session → Error → List OpError × Session
    log_invalid s e = (err_log local remote s e (text "validate stream") ∷ [], s)

    abbrev pub after_frame :
        Bytes → Session → Go (Frame × Option Error) × S → Go (List OpError × Session) × S
    after_frame id s (ok (frm, none), x) = elim (command frm) [
      | none ↦ (panic, x)
      | some name ↦ dispatch_name id name s x
    ]
    after_frame id s (ok (frm, some e), x) = (ok (log_invalid s e), x)
    after_frame id s (err e, x) = (ok (log_invalid s e), x)
    after_frame id s (panic, x) = (panic, x)
    after_frame id s (stuck, x) = (stuck, x)

    -- `dispatchStream` on a connection: what it logs, and the session. Shrink and Close of the
    -- multiplexer's stream are left out.
    unfoldable pub dispatch_stream :
        Reader S → Writer S → Bytes → Session → S → Go (List OpError × Session) × S
    unfolding dispatch_name err_log
    dispatch_stream r wr id s x = after_frame id s (read_frame w r wr s.identification x)

-- `serveHub` once the other session is found: its OpenStream, and the copy from the connection to
-- the new stream, whose error is the result. The copy back runs beside it; the closing of both ends,
-- with which the new stream leaves the other session again, is left out.
unfoldable pub forward_stream :
    {S : Type 0} → ℕ → Reader S → Reader S → Writer S → Bool → Bytes → Bytes → M S (Unit {0})
unfolding open_stream pipe
forward_stream fuel src dst_reader dst_writer closed token name = do
  open_stream dst_reader dst_writer closed token name
  e ← pipe src dst_writer fuel
  or_throw e tt

-- `OpenStream`: `mux` is the error of the multiplexer's own OpenStream, and `id` the new stream's. The
-- stream that is returned is registered.
unfoldable pub open_named_stream :
    {S : Type 0}
    → Reader S
    → Writer S
    → Option Error
    → Bytes
    → Bytes
    → Bytes
    → Session
    → M S (Stream × Session)
unfolding open_stream new_stream register_stream
open_named_stream r wr mux token id name s = if s.closed then throw session_closed else elim mux [
  | some e ↦ throw e
  | none ↦ do
    open_stream r wr false token name
    pure (new_stream id name, register_stream (new_stream id name) s)
]
