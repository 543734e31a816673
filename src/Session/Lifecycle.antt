-- ===== src/Session/Lifecycle.antt =====
-- The goroutines around a session's end (session.go): any number of calls of `Close`, the goroutine
-- that `shutdown` starts, and the streams that open and close meanwhile, a shared access at a time.
pub mod Invariant
pub mod Answers
pub mod Progress
use go_wirenet.Base.{
  ℕ, ◌≡◌, Bool, true, false, Option, none, some, List, [], ◌∷◌, Bytes, same_bytes, ◌==◌,
  if◌then◌else◌,
}
use go_wirenet.Base.Assoc.{Assoc, lookup}
use go_wirenet.Go.{Error}
use go_wirenet.Stream.Defs.{Stream}
use go_wirenet.Session.State.{Session, new_session, register_stream, close_stream}

-- Where a call of `Close` stands.
pub data Call : Type 0 where
  idle : Call
  checked : Call  -- `IsClosed` was false
  marked : Call  -- `closed` is set; before `s.closeCh <- errCh`
  sent : Call  -- before `<-errCh`
  answered : Option Error → Call  -- `closeErr` has come; before `unregisterSession`
  returned : Option Error → Call  -- with that answer
  refused : Call  -- with ErrSessionClosed

-- Where the goroutine stands, with the call whose channel it has taken.
pub data Server : Type 0 where
  listening : Server  -- before `<-s.closeCh`
  draining : ℕ → Server  -- the wait for the streams
  -- past the deadline, with the streams that `range s.streams` has still to come to
  sweeping : ℕ → Assoc Stream → Server
  closing : ℕ → Server  -- `cancel` was called; before the connection's `Close`
  replying : ℕ → Option Error → Server  -- before `errCh <- closeErr`
  ended : ℕ → Server

pub record System : Type 0 where
  pub sess : Session
  pub conn_closed : Bool
  pub cancelled : Bool  -- the context that the handlers get
  pub registered : Bool  -- the wire keeps the session
  pub held : Bytes → Bool  -- a ReadFrom or WriteTo holds the lock of the stream with this id
  pub server : Server
  pub calls : ℕ → Call

-- A family, changed at one place.
abbrev pub update : (ℕ → Call) → ℕ → Call → ℕ → Call
update f i c j = if i == j then c else f j

abbrev pub set_call : ℕ → Call → System → System
set_call i c s = record s { calls = update s.calls i c }

pub data Step (s : System) : System → Type 0 where
  -- `if s.IsClosed() { return ErrSessionClosed }`
  refuse : (i : ℕ) → s.calls i ≡ idle → s.sess.closed ≡ true → Step s (set_call i refused s)
  check : (i : ℕ) → s.calls i ≡ idle → s.sess.closed ≡ false → Step s (set_call i checked s)
  -- `s.closed = true`
  mark :
      (i : ℕ)
      → s.calls i ≡ checked
      → Step s (set_call i marked (record s { sess = record s.sess { closed = true } }))
  -- the channel has no buffer: the call and the goroutine meet
  send :
      (i : ℕ)
      → s.calls i ≡ marked
      → s.server ≡ listening
      → Step s (set_call i sent (record s { server = draining i }))
  -- past the deadline the goroutine goes over the streams of the map
  sweep : (i : ℕ) → s.server ≡ draining i → Step s (record s { server = sweeping i s.sess.streams })
  -- `stream.Close()` takes the stream's lock, and waits while a transfer holds it
  sweep_next :
      (i : ℕ) (k : Bytes) (t : Stream) (rest : Assoc Stream)
      → s.server ≡ sweeping i ((k, t) ∷ rest)
      → s.held t.id ≡ false
      → Step s (record s { sess = (close_stream t s.sess).1; server = sweeping i rest })
  -- a stream that has left the map is not come to, and one that is new may be
  sweep_gone :
      (i : ℕ) (k : Bytes) (t : Stream) (rest : Assoc Stream)
      → s.server ≡ sweeping i ((k, t) ∷ rest)
      → lookup k s.sess.streams ≡ none
      → Step s (record s { server = sweeping i rest })
  sweep_new :
      (i : ℕ) (k : Bytes) (t : Stream) (rest : Assoc Stream)
      → s.server ≡ sweeping i rest
      → lookup k s.sess.streams ≡ some t
      → lookup k rest ≡ none
      → Step s (record s { server = sweeping i ((k, t) ∷ rest) })
  -- `continue`
  swept : (i : ℕ) → s.server ≡ sweeping i [] → Step s (record s { server = draining i })
  -- `activeStreamCounter() <= 0` ends the wait; `cancel()`
  drained :
      (i : ℕ)
      → s.server ≡ draining i
      → s.sess.active_streams ≡ 0
      → Step s (record s { server = closing i; cancelled = true })
  -- `if !s.conn.IsClosed() { closeErr = s.conn.Close() }`
  close_conn :
      (i : ℕ) (e : Option Error)
      → s.server ≡ closing i
      → Step s
          (record s { server = replying i (if s.conn_closed then none else e); conn_closed = true })
  answer :
      (i : ℕ) (e : Option Error)
      → s.server ≡ replying i e
      → s.calls i ≡ sent
      → Step s (set_call i (answered e) (record s { server = ended i }))
  -- `s.w.unregisterSession(s)`, and the return
  unregister :
      (i : ℕ) (e : Option Error)
      → s.calls i ≡ answered e
      → Step s (set_call i (returned e) (record s { registered = false }))
  -- A handler or OpenStream registers a stream, with a new id; a stream is closed, once or again.
  open_stream :
      (t : Stream)
      → lookup t.id s.sess.streams ≡ none
      → Step s (record s { sess = register_stream t s.sess })
  end_stream :
      (t : Stream) → s.held t.id ≡ false → Step s (record s { sess = (close_stream t s.sess).1 })
  -- A ReadFrom or WriteTo takes the lock of its stream, and returns.
  begin_transfer :
      (k : Bytes)
      → s.held k ≡ false
      → Step s (record s { held = λ k'. if same_bytes k' k then true else s.held k' })
  end_transfer :
      (k : Bytes)
      → s.held k ≡ true
      → Step s (record s { held = λ k'. if same_bytes k' k then false else s.held k' })
  -- the peer, or the network, ends the connection
  lose_conn : Step s (record s { conn_closed = true })

pub data Reach (s : System) : System → Type 0 where
  here : Reach s s
  next : {t u : System} → Reach s t → Step t u → Reach s u

-- After `open` has started the goroutine and registered the session.
abbrev pub init : Bytes → Bytes → List Bytes → System
init sid id names = record {
  sess = new_session sid id names;
  conn_closed = false;
  cancelled = false;
  registered = true;
  held = λ _. false;
  server = listening;
  calls = λ _. idle;
}
