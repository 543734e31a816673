-- ===== src/Wire/Close.antt =====
-- `Close`, `close` and the shutdown goroutine (wirenet.go). The handshake over the
-- two channels makes one step of them: the goroutine answers once.
use go_wirenet.Base.{true, not, Option, none, some, [], ◌∷◌, if◌then◌else◌}
use go_wirenet.Base.Assoc.{Assoc}
use go_wirenet.Go.{Error, is_session_closed}
use go_wirenet.Errors.Defs.{ShutdownError, new_shutdown_error, add, is_filled}
use go_wirenet.Wire.State.{Peer, Wire}
use go_wirenet.Wire.Registry.{unregister_session}

pub data CloseError : Type 0 where
  already_closed : CloseError
  shutdown_failed : ShutdownError → CloseError

-- `if err != nil && err != ErrSessionClosed { shutdownErr.Add(err) }`
unfoldable pub note_error : Option Error → ShutdownError → ShutdownError
note_error none acc = acc
note_error (some e) acc = if is_session_closed e then acc else add acc e

-- A session's `Close` takes it off the wire, but for one that was closed before.
unfoldable pub after_close : {H : Type 0} → Option Error → Peer → Wire H → Wire H
after_close none p w = (unregister_session p w).0
after_close (some e) p w = if is_session_closed e then w else (unregister_session p w).0

-- `for _, sess := range sessions { err = sess.Close(); … }`; `answer` is what each one's `Close`
-- returns.
unfoldable pub close_sessions :
    {H : Type 0}
    → (Peer → Option Error)
    → Assoc Peer
    → ShutdownError
    → Wire H
    → ShutdownError × Wire H
unfolding note_error after_close
close_sessions answer [] acc w = (acc, w)
close_sessions answer ((k, p) ∷ rest) acc w =
    close_sessions answer rest (note_error (answer p) acc) (after_close (answer p) p w)

-- `if err := conn.Close(); err != nil { shutdownErr.Add(err) }`
abbrev pub add_conn : Option Error → ShutdownError → ShutdownError
add_conn none acc = acc
add_conn (some e) acc = add acc e

-- The sessions first, then the listener or the connection.
unfoldable pub shutdown :
    {H : Type 0} → (Peer → Option Error) → Option Error → Wire H → ShutdownError × Wire H
unfolding close_sessions
shutdown answer conn_close w =
    let (acc, w') = close_sessions answer w.sessions new_shutdown_error w in
    (add_conn conn_close acc, w')

abbrev pub shutdown_result : ShutdownError → Option CloseError
shutdown_result e = if is_filled e then some (shutdown_failed e) else none

unfoldable pub close :
    {H : Type 0} → (Peer → Option Error) → Option Error → Wire H → Option CloseError × Wire H
unfolding shutdown
close answer conn_close w = let (e, w') = shutdown answer conn_close w in (shutdown_result e, w')

unfoldable pub close_wire :
    {H : Type 0} → (Peer → Option Error) → Option Error → Wire H → Option CloseError × Wire H
unfolding close
close_wire answer conn_close w =
    if not w.conn
    then (none, record w { closed = true })
    else if w.closed
    then (some already_closed, w)
    else close answer conn_close (record w { closed = true })
