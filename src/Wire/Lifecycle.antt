-- ===== src/Wire/Lifecycle.antt =====
-- The goroutines around a wire's end (wirenet.go), from the point at which Connect has started the
-- goroutine of shutdown: any number of calls of `Close`, that goroutine, the loop that accepts, and
-- the sessions that register and leave, a shared access at a time. For a client it is the time of
-- one connection. A session's `Close` (session.go) is one step here, with
-- the test of `isClosed` behind its unregistration.
pub mod Invariant
pub mod Registered
pub mod Answers
pub mod Progress
pub mod Late
pub mod Sequential
use go_wirenet.Base.{
  ◌&&◌, length, ℕ, ◌≡◌, Bool, true, false, Option, none, some, List, [], ◌∷◌, ◌++◌, Bytes, map,
  ◌==◌, if◌then◌else◌,
}
use go_wirenet.Base.Assoc.{Assoc, remove}
use go_wirenet.Go.{Error, is_session_closed}
use go_wirenet.Errors.Defs.{ShutdownError, new_shutdown_error}
use go_wirenet.Wire.State.{Peer, Wire, is_client_side}
use go_wirenet.Wire.Registry.{register_session, unregister_session, set_conn_flag}
use go_wirenet.Wire.Close.{CloseError, note_error, after_close, add_conn, shutdown_result}

-- Where a call stands: of `Close`, or of `close` by the last session that leaves a client (then
-- the Bool is false).
pub data Call : Type 0 where
  idle : Call
  unconnected : Call  -- `isConnOk` was false; before `closeup`
  done : Call  -- returned nil without a connection
  connected : Call  -- `isConnOk` was true
  refused : Call  -- returned ErrWireClosed
  found_open : Call  -- `isClosed` was false; before `closeup`
  emptied : Call  -- the last session has left; before `!w.isClosed()`
  unneeded : Call  -- that was false
  sending : Bool → Call  -- before `w.closeCh <- errCh`
  sent : Bool → Call  -- before `<-errCh`
  returned : Bool → Option CloseError → Call

-- Where the goroutine of shutdown stands, with the call whose channel it has taken, the sessions
-- of its copy that are left and the errors so far.
pub data Server : Type 0 where
  listening : Server
  taken : ℕ → Server  -- before the copy of the sessions
  closing : ℕ → List Peer → ShutdownError → Server
  replying : ℕ → ShutdownError → Server  -- before `errCh <- shutdownErr`
  ended : ℕ → Server
  hanging : ℕ → Server  -- in a session's `Close`, which has called `w.close()`

-- Where the loop of acceptServer stands; a client has none, and is at `stopped`.
pub data Acceptor : Type 0 where
  accepting : Acceptor  -- before `listener.Accept()`
  accepted : Acceptor  -- before `w.isClosed()`
  shaking : Acceptor  -- before `yamux.Server` and `confirmSession`
  finishing : Option Error → Acceptor  -- before the deferred function
  leaving : Option Error → Acceptor  -- in it, before `w.setConnFlag(false)`
  stopped : Option Error → Acceptor  -- Connect has returned

pub record System (H : Type 0) : Type 0 where
  pub wire : Wire H
  pub conn_closed : Bool  -- the listener, or a client's connection
  pub acceptor : Acceptor
  pub pending : List Peer  -- sessions whose goroutine has not registered them yet
  pub server : Server
  pub calls : ℕ → Call
  -- kept for the theorems only: the ids registered since the goroutine copied the sessions, and
  -- those that answered ErrSessionClosed to it
  pub late : List Bytes
  pub already : List Bytes

abbrev pub set_call : {H : Type 0} → ℕ → Call → System H → System H
set_call i c s = record s { calls = λ j. if i == j then c else s.calls j }

abbrev pub values : Assoc Peer → List Peer
values m = map (λ e. e.1) m

-- Whether the session is the last one of a client.
abbrev pub empties : {H : Type 0} → Peer → Wire H → Bool
empties p w = is_client_side w.role && (length (remove p.id w.sessions) == 0)

-- Whether a session's `Close` by the goroutine goes on to `w.close()`, which the goroutine itself
-- would have to answer.
abbrev pub hangs : {H : Type 0} → Option Error → Peer → Wire H → Bool
hangs none p w = (unregister_session p w).1
hangs (some e) p w = if is_session_closed e then false else (unregister_session p w).1

abbrev pub noted : Option Error → Peer → List Bytes → List Bytes
noted none p ids = ids
noted (some e) p ids = if is_session_closed e then p.id ∷ ids else ids

pub data Step {H : Type 0} (s : System H) : System H → Type 0 where
  -- `if !w.isConnOk() { closeup(); return nil }`
  find_unconnected :
      (i : ℕ) → s.calls i ≡ idle → s.wire.conn ≡ false → Step s (set_call i unconnected s)
  close_early :
      (i : ℕ)
      → s.calls i ≡ unconnected
      → Step s (set_call i done (record s { wire = record s.wire { closed = true } }))
  find_connected : (i : ℕ) → s.calls i ≡ idle → s.wire.conn ≡ true → Step s (set_call i connected s)
  -- `if w.isClosed() { return ErrWireClosed }`
  refuse : (i : ℕ) → s.calls i ≡ connected → s.wire.closed ≡ true → Step s (set_call i refused s)
  check : (i : ℕ) → s.calls i ≡ connected → s.wire.closed ≡ false → Step s (set_call i found_open s)
  -- `closeup()`
  mark :
      (i : ℕ)
      → s.calls i ≡ found_open
      → Step s (set_call i (sending true) (record s { wire = record s.wire { closed = true } }))
  -- the channel has no buffer: the call and the goroutine meet
  send :
      (i : ℕ) (b : Bool)
      → s.calls i ≡ sending b
      → s.server ≡ listening
      → Step s (set_call i (sent b) (record s { server = taken i }))
  -- `for _, sess := range w.sessions { sessions = append(sessions, sess) }`
  snapshot :
      (i : ℕ)
      → s.server ≡ taken i
      → Step s (record s {
        server = closing i (values s.wire.sessions) new_shutdown_error;
        late = [];
        already = [];
      })
  -- `err = sess.Close()` answers `e`
  close_next :
      (i : ℕ) (p : Peer) (rest : List Peer) (acc : ShutdownError) (e : Option Error)
      → s.server ≡ closing i (p ∷ rest) acc
      → Step s (record s {
        wire = after_close e p s.wire;
        server = if hangs e p s.wire then hanging i else closing i rest (note_error e acc);
        already = noted e p s.already;
      })
  -- `conn.Close()` answers `e`
  close_conn :
      (i : ℕ) (acc : ShutdownError) (e : Option Error)
      → s.server ≡ closing i [] acc
      → Step s (record s { server = replying i (add_conn e acc); conn_closed = true })
  answer :
      (i : ℕ) (acc : ShutdownError) (b : Bool)
      → s.server ≡ replying i acc
      → s.calls i ≡ sent b
      → Step s (set_call i (returned b (shutdown_result acc)) (record s { server = ended i }))
  -- `listener.Accept()`
  accept :
      s.acceptor ≡ accepting → s.conn_closed ≡ false → Step s (record s { acceptor = accepted })
  accept_fails :
      (e : Error)
      → s.acceptor ≡ accepting
      → Step s (record s { acceptor = finishing (if s.wire.closed then none else some e) })
  -- `defer func() { listener.Close(); w.setConnFlag(false) }()`
  hang_up :
      (e : Option Error)
      → s.acceptor ≡ finishing e
      → Step s (record s { conn_closed = true; acceptor = leaving e })
  finish :
      (e : Option Error)
      → s.acceptor ≡ leaving e
      → Step s (record s { wire = set_conn_flag false s.wire; acceptor = stopped e })
  -- `if w.isClosed() { conn.Close(); continue }`
  drop : s.acceptor ≡ accepted → s.wire.closed ≡ true → Step s (record s { acceptor = accepting })
  greet : s.acceptor ≡ accepted → s.wire.closed ≡ false → Step s (record s { acceptor = shaking })
  no_mux : (e : Error) → s.acceptor ≡ shaking → Step s (record s { acceptor = finishing (some e) })
  not_shaken : s.acceptor ≡ shaking → Step s (record s { acceptor = accepting })
  -- `openSession` starts the session's goroutine
  start :
      (p : Peer)
      → s.acceptor ≡ shaking
      → Step s (record s { acceptor = accepting; pending = p ∷ s.pending })
  -- `s.w.registerSession(s)` in that goroutine
  register :
      (xs ys : List Peer) (p : Peer)
      → s.pending ≡ xs ++ p ∷ ys
      → Step s
          (record s { wire = register_session p s.wire; pending = xs ++ ys; late = p.id ∷ s.late })
  -- A session that ended unregisters itself; the last one of a client goes on to the test
  -- `!w.isClosed()` and to `w.close()`.
  leave :
      (p : Peer)
      → empties p s.wire ≡ false
      → Step s (record s { wire = (unregister_session p s.wire).0 })
  leave_last :
      (i : ℕ) (p : Peer)
      → s.calls i ≡ idle
      → empties p s.wire ≡ true
      → Step s (set_call i emptied (record s { wire = (unregister_session p s.wire).0 }))
  find_shut : (i : ℕ) → s.calls i ≡ emptied → s.wire.closed ≡ true → Step s (set_call i unneeded s)
  close_too :
      (i : ℕ) → s.calls i ≡ emptied → s.wire.closed ≡ false → Step s (set_call i (sending false) s)

pub data Reach {H : Type 0} (s : System H) : System H → Type 0 where
  here : Reach s s
  next : {t u : System H} → Reach s t → Step t u → Reach s u

-- Connect of a server is at `accepting` with no session, and Connect of a client at `stopped none`
-- with the session that it has opened.
abbrev pub init : {H : Type 0} → Wire H → Acceptor → List Peer → System H
init w a ps = record {
  wire = set_conn_flag true w;
  conn_closed = false;
  acceptor = a;
  pending = ps;
  server = listening;
  calls = λ _. idle;
  late = [];
  already = [];
}
