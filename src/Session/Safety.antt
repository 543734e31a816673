-- ===== src/Session/Safety.antt =====
-- readFrame and OpenStream's exchange against any peer.
use go_wirenet.Base.{
  length, ◌==◌, ◌≡◌, Bool, true, false, not, ◌&&◌, ◌||◌, Option, ap, some, none, Bytes, same_bytes,
  if◌then◌else◌,
}
use mathlib.Core.Option
use go_wirenet.Go.{
  session_closed, session_not_found, Error, panic, stuck, Go, ok, err, M, pure, throw,
  unexpected_eof, Ensures, >>=-Ensures,
}
use go_wirenet.Io.{Reader, Writer, IsReader, IsWriter}
use go_wirenet.Frame.Format.{Frame, is_recv_frame, perm_frame_typ}
use go_wirenet.Frame.Exchange.{send_frame}
use go_wirenet.Frame.Safety.{IsReadable, Ends, recv_frame-Ensures, send_frame-Ensures}
use go_wirenet.Wire.State.{Wire}
use go_wirenet.Session.Dispatch.{check_frame, is_hub_side, read_frame, open_stream}
use go_wirenet.Base.Assoc.{lookup}
use go_wirenet.Wire.State.{Peer}
use go_wirenet.Wire.Registry.{find_session, or_error}
use go_wirenet.Stream.Defs.{Stream}
use go_wirenet.Session.State.{Session}
use go_wirenet.Session.Serve.{
  Ran, after_find, after_hub, after_frame, serve_hub_stream, dispatch_name, dispatch_stream,
}

check_frame-Ends :
    {H S : Type 0} (w : Wire H) (id : Bytes) (f : Frame) (s : S)
    → IsReadable f
    → Ends (check_frame w id f s).0
unfolding check_frame
check_frame-Ends w id f s h = rw (h.has_command, h.has_payload) tt

opened :
    {S : Type 0} (a b : Bool) (f : Frame) (s : S)
    → Ends {A = Frame} ((if a && b then throw unexpected_eof else pure f) s).0
opened true true f s = tt
opened true false f s = tt
opened false b f s = tt

module _ {S : Type 0} (r : Reader S) (wr : Writer S) {sent : S → Bytes} (reads : IsReader r)
    (writes : IsWriter wr sent) where
  -- readFrame comes to an end with no panic, whatever frame the peer sends and whatever the token
  -- validator and the wire's maps answer, and no accessor panics on a frame that it returns.
  pub read_frame-Ensures :
      {H : Type 0} (w : Wire H) (id : Bytes) (s : S)
      → Ensures (λ p. IsReadable p.0) (read_frame w r wr id s).0
  unfolding read_frame
  read_frame-Ensures w id s =
      recv_frame-Ensures r wr reads writes (some (check_frame w id)) s (check_frame-Ends w id)

  -- OpenStream's exchange comes to an end with no panic, whatever the peer replies.
  pub open_stream-Ends :
      (closed : Bool) (token name : Bytes) (s : S) → Ends (open_stream r wr closed token name s).0
  unfolding open_stream is_recv_frame
  open_stream-Ends true token name s = tt
  open_stream-Ends false token name s =
      >>=-Ensures IsReadable (λ _. Unit) (send_frame r wr name perm_frame_typ token) _ s
        (send_frame-Ensures r wr reads writes name perm_frame_typ token s)
        (λ f s1 h.
          let e : is_recv_frame f ≡ some _ = ap (Option.map _) h.has_typ in
          rw (h.has_command, e) (opened (not (same_bytes h.name name)) (not _) f s1))

or_error-Ends :
    (b : Bool) (o : Option Peer)
    → Ends (if b then err session_closed else or_error session_not_found o)
or_error-Ends true o = tt
or_error-Ends false none = tt
or_error-Ends false (some p) = tt

either-Ends {ℓ} :
    {A : Type ℓ} {S : Type 0} (b : Bool) (g h : Go A × S)
    → Ends g.0
    → Ends h.0
    → Ends (if b then g else h).0
either-Ends true g h p q = p
either-Ends false g h p q = q

module _ {H : Type 0} (w : Wire H) (run : H → Stream → Session → Ran) (local remote : Bytes)
    {S : Type 0} (forward : Peer → Bytes → M S (Unit {0}))
    (forwards : (p : Peer) (name : Bytes) (x : S) → Ends (forward p name x).0) where
  after_find-Ends :
      (name : Bytes) (g : Go Peer) (x : S) → Ends g → Ends (after_find forward name g x).0
  after_find-Ends name (ok p) x h = forwards p name x
  after_find-Ends name (err e) x h = tt
  after_find-Ends name panic x h = h
  after_find-Ends name stuck x h = h

  find_session-Ends : (name : Bytes) → Ends (find_session name w)
  unfolding find_session
  find_session-Ends name =
      or_error-Ends ((length w.sessions == 0) || w.closed) (lookup name w.stream_index)

  after_hub-Ends :
      (id name : Bytes) (s : Session) (g : Go (Unit {0}) × S)
      → Ends g.0
      → Ends (after_hub w run local remote forward id name s g).0
  after_hub-Ends id name s (ok _, x) h = tt
  after_hub-Ends id name s (err e, x) h = tt
  after_hub-Ends id name s (panic, x) h = h
  after_hub-Ends id name s (stuck, x) h = h

  dispatch_name-Ends :
      (id name : Bytes) (s : Session) (x : S)
      → Ends (dispatch_name w run local remote forward id name s x).0
  unfolding dispatch_name
  dispatch_name-Ends id name s x =
      either-Ends (is_hub_side w) _ _
        (after_hub-Ends id name s (serve_hub_stream forward w name x)
          (after_find-Ends name (find_session name w) x (find_session-Ends name)))
        tt

  after_frame-Ends :
      (id : Bytes) (s : Session) (g : Go (Frame × Option Error) × S)
      → Ensures (λ p. IsReadable p.0) g.0
      → Ends (after_frame w run local remote forward id s g).0
  after_frame-Ends id s (ok (frm, none), x) h =
      rw (h.has_command, after_frame) (dispatch_name-Ends id h.name s x)
  after_frame-Ends id s (ok (frm, some e), x) h = tt
  after_frame-Ends id s (err e, x) h = tt
  after_frame-Ends id s (panic, x) h = h
  after_frame-Ends id s (stuck, x) h = h

  -- dispatchStream comes to an end with no panic, whatever the peer sends on the new stream, if
  -- the handlers and the copies to other sessions come to an end.
  pub dispatch_stream-Ends :
      (r : Reader S) (wr : Writer S) {sent : S → Bytes}
      → IsReader r
      → IsWriter wr sent
      → (id : Bytes) (s : Session) (x : S)
      → Ends (dispatch_stream w run local remote forward r wr id s x).0
  unfolding dispatch_stream
  dispatch_stream-Ends r wr reads writes id s x =
      after_frame-Ends id s (read_frame w r wr s.identification x)
        (read_frame-Ensures r wr reads writes w s.identification x)
