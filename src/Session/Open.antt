-- ===== src/Session/Open.antt =====
-- The goroutine of a session: `open` (session.go). What the multiplexer and the other goroutines
-- do in each round of its loop is an event.
use go_wirenet.Base.{Bool, false, ◌||◌, Option, none, some, List, [], ◌∷◌, ◌++◌, if◌then◌else◌}
use go_wirenet.Go.{Error, Go, ok, stuck}
use go_wirenet.Wire.State.{Peer, Wire}
use go_wirenet.Wire.Registry.{register_session, unregister_session}
use go_wirenet.Session.State.{Session}
use go_wirenet.Session.Shutdown.{Round, close_session}

-- A round: what the other goroutines made of the session by the time `AcceptStream` returns,
-- whether the wire is closed then, and the new connection, or nothing where it fails.
pub record Offer (C : Type 0) : Type 0 where
  pub others : Session → Session
  pub wire_closed : Bool
  pub conn : Option C

-- `Close` with the wire: the error, the session, the wire, and whether a client that has lost
-- its last session goes on to close the wire.
abbrev pub leave :
    {H : Type 0}
    → Bool
    → Peer
    → Wire H
    → Go (Option Error) × Session
    → Go (Option Error × Bool) × Session × Wire H
leave was_closed p w (ok e, s) =
    let (w', last) = unregister_session p w in
    if was_closed then (ok (e, false), s, w) else (ok (e, last), s, w')
leave was_closed p w (_, s) = (stuck, s, w)

module _ {C : Type 0} where
  -- The loop: the connections that got a goroutine for `dispatchStream`, in order, and the session.
  -- Those that it closes at once are dropped; `stuck` is a loop that goes on after these rounds.
  unfoldable pub accept_streams :
      List (Offer C) → List C → Session → Go (Unit {0}) × List C × Session
  accept_streams [] dispatched s = (stuck, dispatched, s)
  accept_streams (r ∷ rest) dispatched s0 =
      let s = r.others s0 in
      elim r.conn [
        | none ↦ (ok tt, dispatched, s)
        | some c ↦
            let next = if s.closed || r.wire_closed then dispatched else dispatched ++ c ∷ [] in
            accept_streams rest next s
      ]

  module _ {H : Type 0} where
    -- The deferred `Close`, once the loop has ended.
    abbrev pub after_accept :
        List Round
        → Bool
        → Option Error
        → Peer
        → Wire H
        → Go (Unit {0}) × List C × Session
        → (Go (Option Error × Bool) × Session × Wire H) × List C
    after_accept rounds conn_closed conn_close p w (ok _, dispatched, s) =
        (leave s.closed p w (close_session rounds conn_closed conn_close s), dispatched)
    after_accept rounds conn_closed conn_close p w (_, dispatched, s) = ((stuck, s, w), dispatched)

    -- `meanwhile` is what others make of the wire while the loop runs; `rounds`, `conn_closed` and
    -- `conn_close` are for `Close`.
    unfoldable pub open_session_loop :
        (Wire H → Wire H)
        → List (Offer C)
        → List Round
        → Bool
        → Option Error
        → Peer
        → Session
        → Wire H
        → (Go (Option Error × Bool) × Session × Wire H) × List C
    unfolding accept_streams close_session unregister_session register_session
    open_session_loop meanwhile offers rounds conn_closed conn_close p s w =
        after_accept rounds conn_closed conn_close p (meanwhile (register_session p w))
          (accept_streams offers [] s)
