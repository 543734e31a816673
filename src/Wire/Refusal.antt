-- ===== src/Wire/Refusal.antt =====
-- The two ends of a handshake, also where the server's validator refuses the client's token.
use go_wirenet.Base.{
  Bool, true, false, ◌^◌, ◌<◌, ◌≡◌, refl, Option, List, ◌++◌, arith, Bytes, text, length, ltb,
  if◌then◌else◌,
}
use go_wirenet.Go.{Error, throw, pure, Go, ok, err, other}
use go_wirenet.Io.{Reader, Writer, Delivers}
use go_wirenet.Frame.Format.{frame_bytes, conf_sess_type, open_sess_typ}
use go_wirenet.Frame.Encoder.{encode_new}
use go_wirenet.Frame.Decoder.{decode_new}
use go_wirenet.Frame.Fields.{frame_fields}
use go_wirenet.Frame.RoundTrip.{decode_new-frame_bytes}
use go_wirenet.Wire.Handshake.{
  Protobuf, Validator, OpenSessionRequest, OpenSessionResponse, refusal_text, open_session_request,
  confirm_session_request,
}

-- What a message was marshalled from is what it is unmarshalled to.
pub record IsProtobuf (pb : Protobuf) : Type 0 where
  pub requests :
      (x : OpenSessionRequest) (b : Bytes)
      → pb.marshal_request x ≡ ok b
      → pb.unmarshal_request b ≡ ok x
  pub responses :
      (x : OpenSessionResponse) (b : Bytes)
      → pb.marshal_response x ≡ ok b
      → pb.unmarshal_response b ≡ ok x

-- The reply to a request.
abbrev pub response : Option Validator → List Bytes → OpenSessionRequest → OpenSessionResponse
response fn names req = record {
  sid = req.sid;
  remote_stream_names = names;
  err_text = refusal_text fn req;
}

-- What the client makes of it: a refusal with a text is an error.
abbrev pub answer : Bytes → List Bytes → Go (List Bytes)
answer refusal names = if ltb 0 (length refusal) then err (other refusal) else ok names

chosen :
    {S : Type 0} (b : Bool) (e : Error) (names : List Bytes) (s : S)
    → ((if b then throw e else pure names) s).0 ≡ (if b then err e else ok names)
chosen true e names s = refl
chosen false e names s = refl

module _ (pb : Protobuf) (law : IsProtobuf pb) {S : Type 0} (r : Reader S) (w : Writer S)
    {pending : S → Bytes} (delivers : Delivers r pending) where
  -- A server that reads a client's request off its stream and can write its reply returns the
  -- session, identification and names of the request, with no error, whatever its validator makes
  -- of the token: a refusal only goes into the reply.
  pub confirm_session_request-accepts :
      (fn : Option Validator) (names : List Bytes) (req : OpenSessionRequest)
      (p body sid rest : Bytes) (s s2 : S)
      → length p < 2 ^ 32
      → pending s ≡ frame_bytes open_sess_typ (text "openSession") p ++ rest
      → pb.marshal_request req ≡ ok p
      → pb.marshal_response (response fn names req) ≡ ok body
      → encode_new w conf_sess_type (text "confirmSession") body (decode_new r s).1 ≡ (ok tt, s2)
      → pb.uuid_from_bytes req.sid ≡ ok sid
      → confirm_session_request pb r w fn names s
        ≡ (ok (sid, req.identification, req.local_stream_names), s2)
  unfolding confirm_session_request
  confirm_session_request-accepts fn names req p body sid rest s s2 hp arrived q m e i =
      let (d, _) =
        decode_new-frame_bytes r delivers open_sess_typ (text "openSession") p rest s (omega arith)
          hp arrived in
      let (_, _, u) =
        frame_fields open_sess_typ (text "openSession") p (omega arith) (omega arith) hp in
      rw (d, u, law.requests req p q, m, e, i) refl

  -- A client whose request is written on a stream on which the server's reply to it arrives
  -- returns the server's names if the validator has passed its token, and an error with the
  -- validator's text if it has refused it with a text that is not empty.
  pub open_session_request-answer :
      (fn : Option Validator) (names : List Bytes) (req : OpenSessionRequest) (p body rest : Bytes)
      (s s1 : S)
      → pb.marshal_request req ≡ ok p
      → encode_new w open_sess_typ (text "openSession") p s ≡ (ok tt, s1)
      → pb.marshal_response (response fn names req) ≡ ok body
      → length body < 2 ^ 32
      → pending s1 ≡ frame_bytes conf_sess_type (text "confirmSession") body ++ rest
      → (open_session_request pb r w req.sid req.token req.identification req.local_stream_names
          s).0
        ≡ answer (refusal_text fn req) names
  unfolding open_session_request
  open_session_request-answer fn names req p body rest s s1 q e m hb arrived =
      let (d, _) =
        decode_new-frame_bytes r delivers conf_sess_type (text "confirmSession") body rest s1
          (omega arith) hb arrived in
      let (_, _, u) =
        frame_fields conf_sess_type (text "confirmSession") body (omega arith) (omega arith) hb in
      rw (q, e, d, u, law.responses (response fn names req) body m)
        (chosen (ltb 0 (length (refusal_text fn req))) (other (refusal_text fn req)) names
          (decode_new r s1).1)
