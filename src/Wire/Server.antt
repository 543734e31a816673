-- ===== src/Wire/Server.antt =====
-- acceptServer (wirenet.go). What the listener and the network do in each round of the
-- loop is an event.
use go_wirenet.Base.{
  Bool, true, false, Option, none, some, List, [], ◌∷◌, ◌++◌, Bytes, if◌then◌else◌,
}
use go_wirenet.Go.{Error, Go, ok, err, panic, stuck}
use go_wirenet.Wire.State.{Peer, Wire}
use go_wirenet.Wire.Registry.{set_conn_flag}

-- What `confirmSession` returns: the session's id, the client's identification and its names.
abbrev pub Confirmed : Type 0
Confirmed = Go (Bytes × Bytes × List Bytes)

-- What `Accept` returns: an error, or a connection, for which `yamux.Server` returns an error or
-- the handshake goes one way or the other.
pub data Incoming : Type 0 where
  not_accepted : Error → Incoming
  no_mux : Error → Incoming
  shaken : Confirmed → Incoming

-- A round, and whether another goroutine has closed the wire by the time `Accept` returns.
pub record Arrival : Type 0 where
  pub closes : Bool
  pub incoming : Incoming

-- The session that `openSession` starts.
abbrev pub new_peer : Bytes × Bytes × List Bytes → Peer
new_peer (sid, id, names) = record { id = sid; identification = id; stream_names = names }

abbrev pub closed_by : {H : Type 0} → Bool → Wire H → Wire H
closed_by flag w = if flag then record w { closed = true } else w

module _ {H : Type 0} where
  -- The handshake's end: a session is opened, or the connection is closed and the loop goes on.
  abbrev pub after_handshake :
      (List Peer → Go (Option Error) × List Peer × Wire H)
      → Confirmed
      → List Peer
      → Wire H
      → Go (Option Error) × List Peer × Wire H
  after_handshake loop (ok c) opened w = loop (opened ++ new_peer c ∷ [])
  after_handshake loop (err e) opened w = loop opened
  after_handshake loop panic opened w = (panic, opened, w)
  after_handshake loop stuck opened w = (stuck, opened, w)

  -- The loop: the error that it ends with, and the sessions that it has opened, in order. `stuck` is
  -- a loop that goes on after these rounds.
  unfoldable pub accept_loop :
      List Arrival → List Peer → Wire H → Go (Option Error) × List Peer × Wire H
  accept_loop [] opened w = (stuck, opened, w)
  accept_loop (a ∷ rest) opened w0 =
      let w = closed_by a.closes w0 in
      let loop = λ (ps : List Peer). accept_loop rest ps w in
      elim a.incoming [
        | not_accepted e ↦ (ok (if w.closed then none else some e), opened, w)
        | no_mux e ↦ if w.closed then loop opened else (ok (some e), opened, w)
        | shaken c ↦ if w.closed then loop opened else after_handshake loop c opened w
      ]

  -- `defer func() { listener.Close(); w.setConnFlag(false) }()`
  abbrev pub finish :
      Go (Option Error) × List Peer × Wire H → Go (Option Error) × List Peer × Wire H
  finish (stuck, opened, w) = (stuck, opened, w)
  finish (g, opened, w) = (g, opened, set_conn_flag false w)

  -- `listen` is the error of `w.listen()`.
  unfoldable pub accept_server :
      Option Error → List Arrival → Wire H → Go (Option Error) × List Peer × Wire H
  unfolding accept_loop set_conn_flag
  accept_server (some e) rounds w = (ok (some e), [], w)
  accept_server none rounds w = finish (accept_loop rounds [] (set_conn_flag true w))
