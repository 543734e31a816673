-- ===== src/Session/Forwarding.antt =====
-- A hub that passes a stream on to the session that offers its name (session.go).
use go_wirenet.Base.{
  ℕ, ◌^◌, ◌<◌, ◌≡◌, refl, sym, ap, ◌∙◌, true, false, none, some, [], ◌++◌, append_assoc, arith,
  Bytes, length,
}
use go_wirenet.Go.{eof, Go, ok, M}
use go_wirenet.Io.{Reader, Writer, Delivers, IsWriter}
use go_wirenet.Frame.Format.{Frame, frame_bytes, command, perm_frame_typ, recv_frame_typ}
use go_wirenet.Frame.Encoder.{encode_new}
use go_wirenet.Frame.Decoder.{decode_new}
use go_wirenet.Frame.Fields.{frame_fields}
use go_wirenet.Frame.RoundTrip.{decode_new-frame_bytes}
use go_wirenet.Frame.Written.{encode_new-sent}
use go_wirenet.Frame.Apart.{decode_new_apart, encode_new_apart}
use go_wirenet.Frame.Replies.{reply, send_frame-replied, recv_frame-request}
use go_wirenet.Stream.Pipe.{pipe}
use go_wirenet.Stream.Copying.{pipe-Copies}
use go_wirenet.Stream.Defs.{Stream}
use go_wirenet.Wire.State.{Peer, Wire}
use go_wirenet.Wire.Registry.{find_session}
use go_wirenet.Session.State.{Session}
use go_wirenet.Session.Dispatch.{
  validate_token, validate_stream_name, is_hub_side, open_stream, check_frame, read_frame,
}
use go_wirenet.Session.Serve.{
  serve_hub_stream, Ran, forward_stream, dispatch_stream, after_frame, after_find, dispatch_name,
}
use go_wirenet.Session.Handlers.{invalid, check_frame-invalid}
use go_wirenet.Session.Agreement.{open_stream-replied}

-- The check passes a name that a session offers.
hub_valid :
    {H : Type 0} (w : Wire H) (id name token : Bytes) (p : Peer)
    → is_hub_side w ≡ true
    → find_session name w ≡ ok p
    → validate_token w id name token ≡ none
    → invalid w id name token ≡ none
unfolding validate_stream_name
hub_valid w id name token p hub found passed = rw (invalid, passed, hub, found) refl

module _ {S : Type 0} (src dst_r : Reader S) (dst_w : Writer S) {pending answers sent : S → Bytes}
    (law : Delivers src pending) (law' : Delivers dst_r answers) (takes : IsWriter dst_w sent)
    (fine : (x : S) (p : Bytes) → (dst_w.write x p).1 ≡ none)
    (ends : (x : S) (n : ℕ) → pending x ≡ [] → (src.read x n).1 ≡ some eof)
    (sent_apart : (x : S) (n : ℕ) → sent (src.read x n).2 ≡ sent x)
    (sent_apart' : (x : S) (n : ℕ) → sent (dst_r.read x n).2 ≡ sent x)
    (pending_apart : (x : S) (p : Bytes) → pending (dst_w.write x p).2 ≡ pending x)
    (pending_apart' : (x : S) (n : ℕ) → pending (dst_r.read x n).2 ≡ pending x) where
  forward_stream_ran :
      (fuel : ℕ) (token name : Bytes) (f : Frame) (s s' s2 : S)
      → open_stream dst_r dst_w false token name s ≡ (ok f, s')
      → pipe src dst_w fuel s' ≡ (ok none, s2)
      → forward_stream fuel src dst_r dst_w false token name s ≡ (ok tt, s2)
  unfolding forward_stream
  forward_stream_ran fuel token name f s s' s2 o p = rw (o, p) refl

  -- What is passed on to the other session: the frame that asks for the name, and then the body.
  abbrev pub Forwards : Bytes → Bytes → Bytes → S → Go (Unit {0}) × S → Type 0
  Forwards token name body s g =
      (s' : S) × (g ≡ (ok tt, s'))
      × (sent s' ≡ sent s ++ (frame_bytes perm_frame_typ name token ++ body))
      × (pending s' ≡ [])

  forward_stream-Forwards :
      (fuel : ℕ) (token name body back : Bytes) (s s1 : S)
      → length body < fuel
      → length name < 2 ^ 32
      → encode_new dst_w perm_frame_typ name token s ≡ (ok tt, s1)
      → answers s1 ≡ reply name none ++ back
      → pending s ≡ body
      → Forwards token name body s (forward_stream fuel src dst_r dst_w false token name s)
  forward_stream-Forwards fuel token name body back s s1 h hn asked answered p =
      let s2 : S = (decode_new dst_r s1).1 in
      let opened = open_stream-replied dst_r dst_w token name none s s2 hn (
        send_frame-replied dst_r dst_w law' name perm_frame_typ token name none back s s1 asked hn
          (omega arith) answered) in
      let left : pending s2 ≡ body =
        decode_new_apart pending dst_r pending_apart' s1
        ∙ ap (λ g. pending g.1) (sym asked)
        ∙ encode_new_apart pending dst_w pending_apart perm_frame_typ name token s
        ∙ p in
      let frame : sent s2 ≡ sent s ++ frame_bytes perm_frame_typ name token =
        decode_new_apart sent dst_r sent_apart' s1
        ∙ encode_new-sent dst_w takes perm_frame_typ name token s s1 asked in
      let (s', ran, out, none_left) =
        pipe-Copies src dst_w law takes fine ends sent_apart pending_apart fuel body s2 h left in
      (
        s',
        forward_stream_ran fuel token name (reply name none) s s2 s' opened ran,
        out
            ∙ ap (λ b. b ++ body) frame
            ∙ append_assoc (sent s) (frame_bytes perm_frame_typ name token) body,
        none_left,
      )

module _ {S H : Type 0} (src : Reader S) (conn_r : Peer → Reader S) (conn_w : Peer → Writer S)
    (w : Wire H) (fuel : ℕ) where
  -- `serveHub` on a hub that has a way to each session: the stream goes over the connection of the
  -- session that was found.
  abbrev pub forward : Peer → Bytes → M S (Unit {0})
  forward p name = forward_stream fuel src (conn_r p) (conn_w p) false w.token name

  module _ (wr : Writer S) (run : H → Stream → Session → Ran) (local remote : Bytes) where
    named_frame :
        (id : Bytes) (s : Session) (frm : Frame) (name : Bytes) (p : Peer) (x x' : S)
        → command frm ≡ some name
        → is_hub_side w ≡ true
        → find_session name w ≡ ok p
        → forward p name x ≡ (ok tt, x')
        → after_frame w run local remote forward id s (ok (frm, none), x) ≡ (ok ([], s), x')
    unfolding dispatch_name serve_hub_stream
    named_frame id s frm name p x x' c hub found ran =
        rw (c, after_frame, hub, found, after_find, ran) refl

    -- A hub on which a stream arrives that asks for a name which another session offers, with a
    -- token that is not refused: once the answers are written, and that session has accepted, what
    -- goes out on the connection of that session, the one found under the name, is the frame that
    -- asks for the name, with the hub's token, and all the bytes that came behind the first frame,
    -- in order; nothing is logged, and the hub's own session is as before. The connections are apart
    -- from each other, that of the session takes every write, and the stream ends only once nothing
    -- is left.
    pub dispatch_stream_forwards :
        (p : Peer) {pending answers sent : S → Bytes}
        → Delivers src pending
        → Delivers (conn_r p) answers
        → IsWriter (conn_w p) sent
        → ((x : S) (b : Bytes) → ((conn_w p).write x b).1 ≡ none)
        → ((x : S) (n : ℕ) → pending x ≡ [] → (src.read x n).1 ≡ some eof)
        → ((x : S) (n : ℕ) → sent (src.read x n).2 ≡ sent x)
        → ((x : S) (n : ℕ) → sent ((conn_r p).read x n).2 ≡ sent x)
        → ((x : S) (b : Bytes) → pending ((conn_w p).write x b).2 ≡ pending x)
        → ((x : S) (n : ℕ) → pending ((conn_r p).read x n).2 ≡ pending x)
        → ((x : S) (b : Bytes) → pending (wr.write x b).2 ≡ pending x)
        → ((x : S) (b : Bytes) → sent (wr.write x b).2 ≡ sent x)
        → (id name token body back : Bytes) (t : ℕ) (s : Session) (x x2 x3 : S) → t < 2 ^ 32
        → length name < 2 ^ 32
        → length token < 2 ^ 32
        → length body < fuel
        → is_hub_side w ≡ true
        → find_session name w ≡ ok p
        → validate_token w s.identification name token ≡ none
        → pending x ≡ frame_bytes t name token ++ body
        → encode_new wr recv_frame_typ name [] (decode_new src x).1 ≡ (ok tt, x2)
        → encode_new (conn_w p) perm_frame_typ name w.token x2 ≡ (ok tt, x3)
        → answers x3 ≡ reply name none ++ back
        → (x' : S) × (dispatch_stream w run local remote forward src wr id s x ≡ (ok ([], s), x'))
          × (sent x' ≡ sent x ++ (frame_bytes perm_frame_typ name w.token ++ body))
          × (pending x' ≡ [])
    unfolding dispatch_stream read_frame
    dispatch_stream_forwards p {pending} {answers} {sent} law law' takes fine ends sent_apart
          sent_apart' pending_apart pending_apart' pending_apart'' sent_apart'' id name token body
          back t s x x2 x3 ht hn hp h hub found passed come answered asked agreed =
        let x1 : S = (decode_new src x).1 in
        let frm : Frame = frame_bytes t name token in
        let (_, c, b) = frame_fields t name token ht hn hp in
        let (_, behind) = decode_new-frame_bytes src law t name token body x hn hp come in
        let left : pending x2 ≡ body =
          ap (λ g. pending g.1) (sym answered)
          ∙ encode_new_apart pending wr pending_apart'' recv_frame_typ name [] x1
          ∙ behind in
        let kept : sent x2 ≡ sent x =
          ap (λ g. sent g.1) (sym answered)
          ∙ encode_new_apart sent wr sent_apart'' recv_frame_typ name [] x1
          ∙ decode_new_apart sent src sent_apart x in
        let (x', ran, out, none_left) =
          forward_stream-Forwards src (conn_r p) (conn_w p) law law' takes fine ends sent_apart
            sent_apart' pending_apart pending_apart' fuel w.token name body back x2 x3 h hn asked
            agreed left in
        (
          x',
          ap (after_frame w run local remote forward id s) (
                recv_frame-request src wr law (some (check_frame w s.identification)) t name token
                  body none x x1 x2 ht hn hp come
                  (check_frame-invalid w s.identification frm name token x1 c b
                    ∙ ap (λ o. (ok o, x1))
                        (hub_valid w s.identification name token p hub found passed))
                  answered)
              ∙ named_frame id s frm name p x2 x' c hub found ran,
          out ∙ ap (λ b. b ++ (frame_bytes perm_frame_typ name w.token ++ body)) kept,
          none_left,
        )
