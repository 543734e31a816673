-- ===== src/Session/Agreement.antt =====
-- OpenStream of one session and the check of the session at the other end (session.go).
use go_wirenet.Base.{
  ℕ, ◌^◌, ◌<◌, ◌≡◌, refl, ap, ◌∙◌, true, false, Option, none, some, ◌++◌, arith, Bytes, length,
  same_bytes_self,
}
use go_wirenet.Go.{Error, other, message, ok, err}
use go_wirenet.Io.{Reader, Writer, Delivers, IsWriter}
use go_wirenet.Frame.Format.{
  Frame, frame_bytes, command, typ, is_recv_frame, perm_frame_typ, recv_frame_typ,
}
use go_wirenet.Frame.Encoder.{encode_new}
use go_wirenet.Frame.Decoder.{decode_new}
use go_wirenet.Frame.Fields.{frame_fields}
use go_wirenet.Frame.Written.{encode_new-sent}
use go_wirenet.Frame.Exchange.{reply_typ, reply_payload, send_frame}
use go_wirenet.Frame.Replies.{reply, replied, send_frame-replied, recv_frame-request}
use go_wirenet.Wire.State.{Wire}
use go_wirenet.Session.Dispatch.{check_frame, read_frame, open_stream}
use go_wirenet.Session.Handlers.{invalid, check_frame-invalid}

recv_known : (f : Frame) (t : ℕ) → typ f ≡ some t → t ≡ recv_frame_typ → is_recv_frame f ≡ some true
unfolding is_recv_frame
recv_known f t h e = ground arith

module _ {S : Type 0} (r : Reader S) (w : Writer S) (token name : Bytes) where
  opened_ok :
      (f : Frame) (s s' : S)
      → send_frame r w name perm_frame_typ token s ≡ (ok f, s')
      → command f ≡ some name
      → is_recv_frame f ≡ some true
      → open_stream r w false token name s ≡ (ok f, s')
  unfolding open_stream
  opened_ok f s s' h c k = rw (h, c, k, same_bytes_self name) refl

  opened_err :
      (e : Error) (s s' : S)
      → send_frame r w name perm_frame_typ token s ≡ (err e, s')
      → open_stream r w false token name s ≡ (err e, s')
  unfolding open_stream
  opened_err e s s' h = rw h refl

  -- OpenStream, once sendFrame has returned.
  pub open_stream-replied :
      (e : Option Error) (s s' : S)
      → length name < 2 ^ 32
      → send_frame r w name perm_frame_typ token s ≡ (replied name e, s')
      → open_stream r w false token name s ≡ (replied name e, s')
  open_stream-replied none s s' hn h =
      let (t, c, _) =
        frame_fields recv_frame_typ name (reply_payload none) (omega arith) hn (omega arith) in
      opened_ok (reply name none) s s' h c (recv_known (reply name none) recv_frame_typ t refl)
  open_stream-replied (some e) s s' hn h = opened_err (other (message e)) s s' h

module _ {H S T : Type 0} (wire : Wire H) (r : Reader S) (w : Writer S) (r' : Reader T)
    (w' : Writer T) {pending sent : S → Bytes} {arrived got : T → Bytes}
    (delivers : Delivers r pending) (takes : IsWriter w sent) (delivers' : Delivers r' arrived)
    (takes' : IsWriter w' got) where
  -- OpenStream at one end, where its request and the reply of the other end are written and
  -- arrive: the other end's session checks the name and the token that were sent, and OpenStream
  -- returns with no error exactly if the check has found none, and otherwise with the error's text.
  pub open_stream_agrees :
      (id name token rest rest' : Bytes) (e : Option Error) (s s1 : S) (t t2 : T)
      → invalid wire id name token ≡ e
      → length name < 2 ^ 32
      → length token < 2 ^ 32
      → length (reply_payload e) < 2 ^ 32
      → encode_new w perm_frame_typ name token s ≡ (ok tt, s1)
      → ((out : Bytes) → sent s1 ≡ sent s ++ out → arrived t ≡ out ++ rest)
      → encode_new w' (reply_typ e) name (reply_payload e) (decode_new r' t).1 ≡ (ok tt, t2)
      → ((out : Bytes) → got t2 ≡ got (decode_new r' t).1 ++ out → pending s1 ≡ out ++ rest')
      → (read_frame wire r' w' id t ≡ (ok (frame_bytes perm_frame_typ name token, e), t2))
        × ((open_stream r w false token name s).0 ≡ replied name e)
  unfolding read_frame
  open_stream_agrees id name token rest rest' e s s1 t t2 checked hn ht hp asked carried answered
        carried' =
      let t1 : T = (decode_new r' t).1 in
      let there =
        carried (frame_bytes perm_frame_typ name token)
          (encode_new-sent w takes perm_frame_typ name token s s1 asked) in
      let back =
        carried' (reply name e)
          (encode_new-sent w' takes' (reply_typ e) name (reply_payload e) t1 t2 answered) in
      let (_, c, b) = frame_fields perm_frame_typ name token (omega arith) hn ht in
      (
        recv_frame-request r' w' delivers' (some (check_frame wire id)) perm_frame_typ name token
            rest e t t1 t2 (omega arith) hn ht there
            (check_frame-invalid wire id (frame_bytes perm_frame_typ name token) name token t1 c b
              ∙ ap (λ o. (ok o, t1)) checked)
            answered,
        ap (λ g. g.0)
            (open_stream-replied r w token name e s (decode_new r s1).1 hn (
              send_frame-replied r w delivers name perm_frame_typ token name e rest' s s1 asked hn
                hp back)),
      )
