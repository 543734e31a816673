-- ===== src/Frame/Exchange.antt =====
-- sendFrame and recvFrame (frame.go): a request and its reply on one connection.
use go_wirenet.Base.{ℕ, ◌||◌, Option, none, some, [], Bytes, if◌then◌else◌}
use go_wirenet.Go.{Error, other, message, M, pure, throw, ◌>>=◌, ◌>>◌, or_panic}
use go_wirenet.Io.{Reader, Writer}
use go_wirenet.Frame.Format.{
  Frame, is_err_frame, is_perm_frame, payload, command, recv_frame_typ, err_frame_typ,
}
use go_wirenet.Frame.Encoder.{encode_new}
use go_wirenet.Frame.Decoder.{decode_new}

-- What a frame's check answers: no error, or the error.
abbrev pub Check : Type 0 → Type 0
Check S = Frame → M S (Option Error)

-- `if fn != nil`
abbrev pub run_check : {S : Type 0} → Option (Check S) → Check S
run_check none f = pure none
run_check (some fn) f = fn f

abbrev pub reply_typ : Option Error → ℕ
reply_typ none = recv_frame_typ
reply_typ (some e) = err_frame_typ

abbrev pub reply_payload : Option Error → Bytes
reply_payload none = []
reply_payload (some e) = message e

module _ {S : Type 0} (r : Reader S) (w : Writer S) where
  -- The reply as `sendFrame` reads it. (`||` does not look at its second test after `true`.)
  unfoldable pub accept_reply : Frame → M S Frame
  accept_reply frm = do
    e ← or_panic (is_err_frame frm)
    p ← or_panic (is_perm_frame frm)
    if e || p then (do text ← or_panic (payload frm); throw (other text)) else pure frm

  unfoldable pub send_frame : Bytes → ℕ → Bytes → M S Frame
  unfolding accept_reply
  send_frame name typ body = do encode_new w typ name body; frm ← decode_new r; accept_reply frm

  -- The frame, with the error of its check, once the reply is written.
  unfoldable pub recv_frame : Option (Check S) → M S (Frame × Option Error)
  recv_frame fn = do
    frm ← decode_new r
    check_err ← run_check fn frm
    cmd ← or_panic (command frm)
    encode_new w (reply_typ check_err) cmd (reply_payload check_err)
    pure (frm, check_err)
