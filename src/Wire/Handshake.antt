-- ===== src/Wire/Handshake.antt =====
-- The two ends of opening a session (wirenet.go), and the messages of pb/session.proto. The
-- protobuf library and uuid.FromBytes are parameters.
use go_wirenet.Base.{Option, none, some, List, [], Bytes, length, text, ltb, if◌then◌else◌}
use go_wirenet.Go.{Error, other, message, Go, M, pure, throw, lift, ◌>>=◌, ◌>>◌, or_panic}
use go_wirenet.Io.{Reader, Writer}
use go_wirenet.Frame.Format.{payload, open_sess_typ, conf_sess_type}
use go_wirenet.Frame.Encoder.{encode_new}
use go_wirenet.Frame.Decoder.{decode_new}

pub record OpenSessionRequest : Type 0 where
  pub sid : Bytes
  pub token : Bytes
  pub local_stream_names : List Bytes
  pub identification : Bytes

pub record OpenSessionResponse : Type 0 where
  pub sid : Bytes
  pub remote_stream_names : List Bytes
  pub err_text : Bytes

pub record Protobuf : Type 0 where
  pub marshal_request : OpenSessionRequest → Go Bytes
  pub unmarshal_request : Bytes → Go OpenSessionRequest
  pub marshal_response : OpenSessionResponse → Go Bytes
  pub unmarshal_response : Bytes → Go OpenSessionResponse
  pub uuid_from_bytes : Bytes → Go Bytes

abbrev pub Validator : Type 0
Validator = Bytes → Bytes → Bytes → Option Error

-- `if fn != nil { if err := fn("confirmSession", …); err != nil { resp.Err = err.Error() } }`
abbrev pub refusal_text : Option Validator → OpenSessionRequest → Bytes
refusal_text none req = []
refusal_text (some fn) req = elim (fn (text "confirmSession") req.identification req.token) [
  | none ↦ []
  | some e ↦ message e
]

module _ (pb : Protobuf) {S : Type 0} (r : Reader S) (w : Writer S) where
  unfoldable pub open_session_request : Bytes → Bytes → Bytes → List Bytes → M S (List Bytes)
  open_session_request sid token id names = do
    body ← lift (
        pb.marshal_request
          (record { sid = sid; token = token; local_stream_names = names; identification = id }))
    encode_new w open_sess_typ (text "openSession") body
    frm ← decode_new r
    p ← or_panic (payload frm)
    resp ← lift (pb.unmarshal_response p)
    if ltb 0 (length resp.err_text)
        then throw (other resp.err_text)
        else pure resp.remote_stream_names

  -- The reply to a request. A validator's refusal goes into it, and does not stop the function.
  unfoldable pub answer_request :
      Option Validator → List Bytes → OpenSessionRequest → M S (Bytes × Bytes × List Bytes)
  answer_request fn names req = do
    body ← lift (
        pb.marshal_response
          (record { sid = req.sid; remote_stream_names = names; err_text = refusal_text fn req }))
    encode_new w conf_sess_type (text "confirmSession") body
    sid ← lift (pb.uuid_from_bytes req.sid)
    pure (sid, req.identification, req.local_stream_names)

  -- The session id, the peer's identification and its stream names.
  unfoldable pub confirm_session_request :
      Option Validator → List Bytes → M S (Bytes × Bytes × List Bytes)
  unfolding answer_request
  confirm_session_request fn names = do
    frm ← decode_new r
    p ← or_panic (payload frm)
    req ← lift (pb.unmarshal_request p)
    answer_request fn names req
