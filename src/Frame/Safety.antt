-- ===== src/Frame/Safety.antt =====
-- sendFrame and recvFrame against any peer: whatever arrives, and whatever fails, they come to an
-- end with no panic.
use go_wirenet.Base.{
  ℕ, ◌≡◌, ◌≢◌, refl, Bool, true, false, ◌||◌, Option, some, arith, Bytes, take, drop, slice-some,
  uint32, ap, if◌then◌else◌,
}
use mathlib.Core.Option
use go_wirenet.Go.{other, Go, ok, err, panic, stuck, pure, throw, Ensures, >>=-Ensures}
use go_wirenet.Io.{Reader, Writer, IsReader, IsWriter}
use go_wirenet.Frame.Format.{Frame, typ, command, payload, is_err_frame, is_perm_frame}
use go_wirenet.Frame.Encoder.{encode_new}
use go_wirenet.Frame.Decoder.{decode_new}
use go_wirenet.Frame.Shape.{IsFrame, IsDecoded, decode_new-IsDecoded, frame_parts}
use go_wirenet.Frame.Written.{encode_new-Sends}
use go_wirenet.Frame.Exchange.{
  Check, run_check, reply_typ, reply_payload, accept_reply, send_frame, recv_frame,
}

-- The accessors do not panic on a frame.
pub record IsReadable (f : Frame) : Type 0 where
  pub name : Bytes
  pub body : Bytes
  pub kind : ℕ
  pub has_command : command f ≡ some name
  pub has_payload : payload f ≡ some body
  pub has_typ : typ f ≡ some kind

IsFrame-IsReadable : (f : Frame) (cl pl : ℕ) → IsFrame f cl pl → IsReadable f
unfolding typ
IsFrame-IsReadable f cl pl h =
    let (c, p, is_c, is_p, _, _, _) = frame_parts f h in
    record {
      name = c;
      body = p;
      kind = uint32 (take 4 (drop 0 f));
      has_command = is_c;
      has_payload = is_p;
      has_typ = ap (Option.map uint32) (slice-some 0 4 f (omega arith) (omega (arith, h.whole)));
    }

IsDecoded-Ensures : (g : Go Frame) → IsDecoded g → Ensures IsReadable g
IsDecoded-Ensures (ok f) (cl, pl, h) = IsFrame-IsReadable f cl pl h
IsDecoded-Ensures (err e) h = tt
IsDecoded-Ensures panic h = h
IsDecoded-Ensures stuck h = h

-- Decode returns a readable frame, or an error.
pub decode_new-Ensures :
    {S : Type 0} (r : Reader S) → IsReader r → (s : S) → Ensures IsReadable (decode_new r s).0
decode_new-Ensures r law s = IsDecoded-Ensures (decode_new r s).0 (decode_new-IsDecoded r law s)

abbrev pub Ends {ℓ} : {A : Type ℓ} → Go A → Type 0
Ends = Ensures (λ _. Unit)

ends : (g : Go (Unit {0})) → g ≢ stuck → g ≢ panic → Ends g
ends (ok a) h k = tt
ends (err e) h k = tt
ends panic h k = k refl
ends stuck h k = h refl

pub encode_new-Ends :
    {S : Type 0} (w : Writer S) {sent : S → Bytes}
    → IsWriter w sent
    → (t : ℕ) (cmd body : Bytes) (s : S) → Ends (encode_new w t cmd body s).0
encode_new-Ends w law t cmd body s =
    let (_, _, _, _, go, safe) = encode_new-Sends w law t cmd body s in
    ends (encode_new w t cmd body s).0 go safe

flags_readable :
    (f : Frame)
    → IsReadable f
    → ((a : Bool) × (is_err_frame f ≡ some a)) × ((b : Bool) × (is_perm_frame f ≡ some b))
unfolding is_err_frame is_perm_frame
flags_readable f h = ((_, ap (Option.map _) h.has_typ), (_, ap (Option.map _) h.has_typ))

reply_branch :
    {S : Type 0} (b : Bool) (f : Frame) (p : Bytes) (s : S)
    → IsReadable f
    → Ensures IsReadable ((if b then throw (other p) else pure f) s).0
reply_branch true f p s h = tt
reply_branch false f p s h = h

module _ {S : Type 0} (r : Reader S) (w : Writer S) {sent : S → Bytes} (reads : IsReader r)
    (writes : IsWriter w sent) where
  accept_reply-Ensures :
      (f : Frame) (s : S) → IsReadable f → Ensures IsReadable (accept_reply r w f s).0
  unfolding accept_reply
  accept_reply-Ensures f s h =
      let ((a, e), (b, p)) = flags_readable f h in
      rw (e, p, h.has_payload) (reply_branch (a || b) f h.body s h)

  -- sendFrame comes to an end with no panic, whatever the peer replies, and no accessor panics on
  -- a reply that it returns.
  pub send_frame-Ensures :
      (name : Bytes) (t : ℕ) (body : Bytes) (s : S)
      → Ensures IsReadable (send_frame r w name t body s).0
  unfolding send_frame
  send_frame-Ensures name t body s =
      >>=-Ensures (λ _. Unit) IsReadable (encode_new w t name body) _ s
        (encode_new-Ends w writes t name body s)
        (λ _ s1 _.
          >>=-Ensures IsReadable IsReadable (decode_new r) _ s1 (decode_new-Ensures r reads s1)
            (λ f s2 h. accept_reply-Ensures f s2 h))

  -- recvFrame comes to an end with no panic, whatever the peer sends, if its check does, and no
  -- accessor panics on a request that it returns.
  pub recv_frame-Ensures :
      (fn : Option (Check S)) (s : S)
      → ((f : Frame) (s' : S) → IsReadable f → Ends (run_check fn f s').0)
      → Ensures (λ p. IsReadable p.0) (recv_frame r w fn s).0
  unfolding recv_frame
  recv_frame-Ensures fn s checks =
      >>=-Ensures IsReadable (λ p. IsReadable p.0) (decode_new r) _ s (decode_new-Ensures r reads s)
        λ f s1 h.
          >>=-Ensures (λ _. Unit) (λ p. IsReadable p.0) (run_check fn f) _ s1 (checks f s1 h)
            λ e s2 _. rw h.has_command (
              >>=-Ensures (λ _. Unit) (λ p. IsReadable p.0)
                (encode_new w (reply_typ e) h.name (reply_payload e)) _ s2
                (encode_new-Ends w writes (reply_typ e) h.name (reply_payload e) s2) (λ _ s3 _. h))
