-- ===== src/Session/Shutdown.antt =====
-- The wait of `shutdown` for the session's streams, and `Close` (session.go).
use go_wirenet.Base.{Bytes, ◌==◌, Bool, true, Option, none, some, List, [], ◌∷◌, if◌then◌else◌}
use go_wirenet.Go.{Error, session_closed, Go, ok, stuck, pure, ◌>>◌}
use go_wirenet.Session.State.{Session, close_streams}

-- One round of the wait: what the session's goroutines did since the last one, whether the deadline
-- has passed by then, and on which streams a ReadFrom or WriteTo runs from there on.
pub record Round : Type 0 where
  pub others : Session → Session
  pub expired : Bool
  pub held : Bytes → Bool

-- `stuck` is a wait that has not ended after these rounds, or that has come to the lock of a stream
-- on which a transfer runs.
unfoldable pub wait_streams : List Round → Session → Go (Unit {0}) × Session
unfolding close_streams
wait_streams [] s = (stuck, s)
wait_streams (r ∷ rs) s =
    let s1 = r.others s in
    if s1.active_streams == 0
    then (ok tt, s1)
    else ((if r.expired then close_streams r.held s1.streams else pure tt) >> wait_streams rs) s1

-- What the shutdown goroutine does once it has the caller's channel: it waits, then closes the
-- connection, unless that is closed already. `conn_close` is that connection's `Close()`.
abbrev pub end_session : Bool → Option Error → Go (Unit {0}) × Session → Go (Option Error) × Session
end_session conn_closed conn_close (ok _, s) = (ok (if conn_closed then none else conn_close), s)
end_session conn_closed conn_close (_, s) = (stuck, s)

unfoldable pub close_session :
    List Round → Bool → Option Error → Session → Go (Option Error) × Session
unfolding wait_streams
close_session rounds conn_closed conn_close s =
    if s.closed
    then (ok (some session_closed), s)
    else end_session conn_closed conn_close (wait_streams rounds (record s { closed = true }))
