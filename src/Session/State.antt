-- ===== src/Session/State.antt =====
-- A session's fields that change, and the operations on them (session.go, stream.go).
-- Each of the first ones runs under the session's lock, so it is one step. A map's value is the stream as it was
-- registered; what closing it does to the session depends on its id alone.
use go_wirenet.Base.{ℕ, ◌+◌, ◌-◌, Bool, true, false, List, [], ◌∷◌, Bytes, ltb, if◌then◌else◌}
use go_wirenet.Base.Assoc.{Assoc, insert, remove}
use go_wirenet.Go.{Go, ok, stuck}
use go_wirenet.Stream.Defs.{Stream}

pub record Session : Type 0 where
  pub id : Bytes
  pub identification : Bytes
  pub stream_names : List Bytes
  pub closed : Bool
  pub active_streams : ℕ
  pub streams : Assoc Stream

-- The value that `openSession` builds.
unfoldable pub new_session : Bytes → Bytes → List Bytes → Session
new_session sid id names = record {
  id = sid;
  identification = id;
  stream_names = names;
  closed = false;
  active_streams = 0;
  streams = [];
}

unfoldable pub register_stream : Stream → Session → Session
register_stream t s = record s {
  streams = insert t.id t s.streams;
  active_streams = s.active_streams + 1;
}

unfoldable pub unregister_stream : Stream → Session → Session
unregister_stream t s = record s {
  streams = remove t.id s.streams;
  active_streams = if ltb 0 s.active_streams then s.active_streams - 1 else s.active_streams;
}

-- `stream.Close()`: the stream's flag, and its session; the connection is closed too.
unfoldable pub close_stream : Stream → Session → Stream × Session
unfolding unregister_stream
close_stream t s = (record t { closed = true }, unregister_stream t s)

-- `for _, stream := range s.streams { stream.Close() }`. Close takes the stream's lock, which ReadFrom
-- and WriteTo hold while they run: `held` says on which streams one of them runs, and there the loop
-- comes to a stop, which is `stuck`.
unfoldable pub close_streams : (Bytes → Bool) → Assoc Stream → Session → Go (Unit {0}) × Session
unfolding close_stream
close_streams held [] s = (ok tt, s)
close_streams held ((k, t) ∷ rest) s =
    let next = close_streams held rest (close_stream t s).1 in
    if held t.id then (stuck, s) else next
