-- ===== src/Frame/Replies.antt =====
-- The two ends of a request: what recvFrame replies, and what sendFrame makes of it.
use go_wirenet.Base.{
  ℕ, ◌^◌, ◌<◌, ◌≡◌, refl, ap, ◌∙◌, true, false, Option, none, some, ◌++◌, arith, Bytes, length,
}
use go_wirenet.Go.{Error, other, message, Go, ok, err}
use go_wirenet.Io.{Reader, Writer, Delivers}
use go_wirenet.Frame.Format.{
  Frame, frame_bytes, typ, payload, is_err_frame, is_perm_frame, recv_frame_typ, err_frame_typ,
}
use go_wirenet.Frame.Encoder.{encode_new}
use go_wirenet.Frame.Decoder.{decode_new}
use go_wirenet.Frame.Fields.{frame_fields}
use go_wirenet.Frame.RoundTrip.{decode_new-frame_bytes}
use go_wirenet.Frame.Exchange.{
  Check, run_check, reply_typ, reply_payload, accept_reply, send_frame, recv_frame,
}

-- The reply to a request for `cmd` whose check answered `e`.
abbrev pub reply : Bytes → Option Error → Frame
reply cmd e = frame_bytes (reply_typ e) cmd (reply_payload e)

-- What that reply means to the side that asked.
abbrev pub replied : Bytes → Option Error → Go Frame
replied cmd none = ok (reply cmd none)
replied cmd (some e) = err (other (message e))

typ_tests :
    (f : Frame) (t : ℕ)
    → typ f ≡ some t
    → (t ≡ recv_frame_typ → (is_err_frame f ≡ some false) × (is_perm_frame f ≡ some false))
      × (t ≡ err_frame_typ → (is_err_frame f ≡ some true) × (is_perm_frame f ≡ some false))
unfolding is_err_frame is_perm_frame
typ_tests f t h = (ground arith, ground arith)

module _ {S : Type 0} (r : Reader S) (w : Writer S) where
  accept_reply_ok :
      (f : Frame) (s : S)
      → is_err_frame f ≡ some false
      → is_perm_frame f ≡ some false
      → accept_reply r w f s ≡ (ok f, s)
  unfolding accept_reply
  accept_reply_ok f s h k = rw (h, k) refl

  accept_reply_error :
      (f : Frame) (p : Bytes) (s : S)
      → is_err_frame f ≡ some true
      → is_perm_frame f ≡ some false
      → payload f ≡ some p
      → accept_reply r w f s ≡ (err (other p), s)
  unfolding accept_reply
  accept_reply_error f p s h k q = rw (h, k, q) refl

  accept_reply-reply :
      (cmd : Bytes) (e : Option Error) (s : S)
      → length cmd < 2 ^ 32
      → length (reply_payload e) < 2 ^ 32
      → accept_reply r w (reply cmd e) s ≡ (replied cmd e, s)
  accept_reply-reply cmd none s hc hp =
      let (t, _, _) = frame_fields recv_frame_typ cmd (reply_payload none) (omega arith) hc hp in
      let (a, b) = (typ_tests (reply cmd none) recv_frame_typ t).0 refl in
      accept_reply_ok (reply cmd none) s a b
  accept_reply-reply cmd (some e) s hc hp =
      let (t, _, p) = frame_fields err_frame_typ cmd (message e) (omega arith) hc hp in
      let (a, b) = (typ_tests (reply cmd (some e)) err_frame_typ t).1 refl in
      accept_reply_error (reply cmd (some e)) (message e) s a b p

module _ {S : Type 0} (r : Reader S) (w : Writer S) {pending : S → Bytes}
    (law : Delivers r pending) where
  -- sendFrame with the world it leaves.
  pub send_frame-replied :
      (name : Bytes) (t : ℕ) (body cmd : Bytes) (e : Option Error) (rest : Bytes) (s s1 : S)
      → encode_new w t name body s ≡ (ok tt, s1)
      → length cmd < 2 ^ 32
      → length (reply_payload e) < 2 ^ 32
      → pending s1 ≡ reply cmd e ++ rest
      → send_frame r w name t body s ≡ (replied cmd e, (decode_new r s1).1)
  unfolding send_frame
  send_frame-replied name t body cmd e rest s s1 sent hc hp p =
      let (got, _) =
        decode_new-frame_bytes r law (reply_typ e) cmd (reply_payload e) rest s1 hc hp p in
      rw (sent, got) (accept_reply-reply r w cmd e (decode_new r s1).1 hc hp)

  -- sendFrame, after its request is written on a stream on which the reply to `cmd` arrives, returns
  -- the reply if the check passed, and an error with the text of the check's error if not; it
  -- leaves what follows the reply.
  pub send_frame-reply :
      (name : Bytes) (t : ℕ) (body cmd : Bytes) (e : Option Error) (rest : Bytes) (s s1 : S)
      → encode_new w t name body s ≡ (ok tt, s1)
      → length cmd < 2 ^ 32
      → length (reply_payload e) < 2 ^ 32
      → pending s1 ≡ reply cmd e ++ rest
      → ((send_frame r w name t body s).0 ≡ replied cmd e)
        × (pending (send_frame r w name t body s).1 ≡ rest)
  send_frame-reply name t body cmd e rest s s1 sent hc hp p =
      let ran = send_frame-replied name t body cmd e rest s s1 sent hc hp p in
      let (_, left) =
        decode_new-frame_bytes r law (reply_typ e) cmd (reply_payload e) rest s1 hc hp p in
      (ap (λ g. g.0) ran, ap (λ g. pending g.1) ran ∙ left)

  -- recvFrame, on a stream that starts with a request, hands its check the request, writes the
  -- reply to the request's command that the check's answer calls for, and returns the request with
  -- that answer.
  pub recv_frame-request :
      (fn : Option (Check S)) (t : ℕ) (cmd body rest : Bytes) (e : Option Error) (s s2 s3 : S)
      → t < 2 ^ 32
      → length cmd < 2 ^ 32
      → length body < 2 ^ 32
      → pending s ≡ frame_bytes t cmd body ++ rest
      → run_check fn (frame_bytes t cmd body) (decode_new r s).1 ≡ (ok e, s2)
      → encode_new w (reply_typ e) cmd (reply_payload e) s2 ≡ (ok tt, s3)
      → recv_frame r w fn s ≡ (ok (frame_bytes t cmd body, e), s3)
  unfolding recv_frame
  recv_frame-request fn t cmd body rest e s s2 s3 ht hc hb p checked sent =
      let (got, _) = decode_new-frame_bytes r law t cmd body rest s hc hb p in
      let (_, c, _) = frame_fields t cmd body ht hc hb in rw (got, checked, c, sent) refl
