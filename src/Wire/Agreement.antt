-- ===== src/Wire/Agreement.antt =====
-- The two ends of a handshake together (wirenet.go).
use go_wirenet.Base.{◌^◌, ◌<◌, ◌≡◌, Option, List, ◌++◌, Bytes, length, text}
use go_wirenet.Go.{ok}
use go_wirenet.Io.{Reader, Writer, Delivers, IsWriter}
use go_wirenet.Frame.Format.{frame_bytes, open_sess_typ, conf_sess_type}
use go_wirenet.Frame.Encoder.{encode_new}
use go_wirenet.Frame.Decoder.{decode_new}
use go_wirenet.Frame.Written.{encode_new-sent}
use go_wirenet.Wire.Handshake.{
  Protobuf, Validator, OpenSessionRequest, refusal_text, open_session_request,
  confirm_session_request,
}
use go_wirenet.Wire.Refusal.{
  IsProtobuf, response, answer, open_session_request-answer, confirm_session_request-accepts,
}

module _ (pb : Protobuf) (law : IsProtobuf pb) {S T : Type 0} (r : Reader S) (w : Writer S)
    (r' : Reader T) (w' : Writer T) {pending sent : S → Bytes} {arrived got : T → Bytes}
    (delivers : Delivers r pending) (takes : IsWriter w sent) (delivers' : Delivers r' arrived)
    (takes' : IsWriter w' got) where
  -- A handshake in which both requests are written and arrive: the server's end returns the
  -- client's session, identification and stream names, and the client's end the server's stream
  -- names, or an error with the validator's text where it has refused the token with one.
  pub handshake_agrees :
      (fn : Option Validator) (names : List Bytes) (req : OpenSessionRequest)
      (p body sid rest rest' : Bytes) (s s1 : S) (t t2 : T)
      → length p < 2 ^ 32
      → length body < 2 ^ 32
      → pb.marshal_request req ≡ ok p
      → pb.marshal_response (response fn names req) ≡ ok body
      → pb.uuid_from_bytes req.sid ≡ ok sid
      → encode_new w open_sess_typ (text "openSession") p s ≡ (ok tt, s1)
      → ((out : Bytes) → sent s1 ≡ sent s ++ out → arrived t ≡ out ++ rest)
      → encode_new w' conf_sess_type (text "confirmSession") body (decode_new r' t).1 ≡ (ok tt, t2)
      → ((out : Bytes) → got t2 ≡ got (decode_new r' t).1 ++ out → pending s1 ≡ out ++ rest')
      → (confirm_session_request pb r' w' fn names t
          ≡ (ok (sid, req.identification, req.local_stream_names), t2))
        × ((open_session_request pb r w req.sid req.token req.identification req.local_stream_names
              s).0
            ≡ answer (refusal_text fn req) names)
  handshake_agrees fn names req p body sid rest rest' s s1 t t2 hp hb q m i e carried e' carried' =
      let asked =
        carried (frame_bytes open_sess_typ (text "openSession") p)
          (encode_new-sent w takes open_sess_typ (text "openSession") p s s1 e) in
      let replied = carried' (frame_bytes conf_sess_type (text "confirmSession") body) (
        encode_new-sent w' takes' conf_sess_type (text "confirmSession") body (decode_new r' t).1 t2
          e') in
      (
        confirm_session_request-accepts pb law r' w' delivers' fn names req p body sid rest t t2 hp
            asked q m e' i,
        open_session_request-answer pb law r w delivers fn names req p body rest' s s1 q e m hb
            replied,
      )
