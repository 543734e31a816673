-- ===== src/Examples/Auth.antt =====
-- The validator of the auth example (examples/auth) in a handshake.
use go_wirenet.Base.{
  ◌^◌, ◌<◌, ◌≡◌, refl, ap, ◌∙◌, Bool, true, false, Bool-cases, inl, inr, some, none, List, ◌++◌,
  Bytes, length, text, same_bytes, if◌then◌else◌,
}
use go_wirenet.Go.{other, message, Go, ok, err}
use go_wirenet.Io.{Reader, Writer, Delivers, IsWriter}
use go_wirenet.Frame.Format.{open_sess_typ, conf_sess_type}
use go_wirenet.Frame.Encoder.{encode_new}
use go_wirenet.Frame.Decoder.{decode_new}
use go_wirenet.Wire.Handshake.{
  Protobuf, Validator, OpenSessionRequest, refusal_text, open_session_request,
  confirm_session_request,
}
use go_wirenet.Wire.Refusal.{IsProtobuf, response, answer}
use go_wirenet.Wire.Agreement.{handshake_agrees}

-- The function that examples/auth/server/main.go hands to WithTokenValidator; what it prints is left out.
unfoldable pub auth_validator : Validator
auth_validator stream_name id token =
    if same_bytes (text "token") token then none else some (other (text "invalid token"))

-- What a client's openSession returns.
abbrev pub admitted : Bool → List Bytes → Go (List Bytes)
admitted true names = ok names
admitted false names = err (other (text "invalid token"))

answer-admitted :
    (names : List Bytes) (req : OpenSessionRequest)
    → answer (refusal_text (some auth_validator) req) names
      ≡ admitted (same_bytes (text "token") req.token) names
unfolding auth_validator message same_bytes
answer-admitted names req = elim (Bool-cases (same_bytes (text "token") req.token)) [
  | inl same ↦ rw (same) refl
  | inr differs ↦ rw (differs) refl
]

module _ (pb : Protobuf) (law : IsProtobuf pb) {S T : Type 0} (r : Reader S) (w : Writer S)
    (r' : Reader T) (w' : Writer T) {pending sent : S → Bytes} {arrived got : T → Bytes}
    (delivers : Delivers r pending) (takes : IsWriter w sent) (delivers' : Delivers r' arrived)
    (takes' : IsWriter w' got) where
  -- A handshake with the server of the auth example, in which both messages are written and arrive:
  -- a client gets the server's stream names exactly if its token is the word "token", and otherwise
  -- the error "invalid token"; the server's end returns the client's session and names in both
  -- cases, with no error.
  pub handshake-auth_validator :
      (names : List Bytes) (req : OpenSessionRequest) (p body sid rest rest' : Bytes) (s s1 : S)
      (t t2 : T)
      → length p < 2 ^ 32
      → length body < 2 ^ 32
      → pb.marshal_request req ≡ ok p
      → pb.marshal_response (response (some auth_validator) names req) ≡ ok body
      → pb.uuid_from_bytes req.sid ≡ ok sid
      → encode_new w open_sess_typ (text "openSession") p s ≡ (ok tt, s1)
      → ((out : Bytes) → sent s1 ≡ sent s ++ out → arrived t ≡ out ++ rest)
      → encode_new w' conf_sess_type (text "confirmSession") body (decode_new r' t).1 ≡ (ok tt, t2)
      → ((out : Bytes) → got t2 ≡ got (decode_new r' t).1 ++ out → pending s1 ≡ out ++ rest')
      → ((open_session_request pb r w req.sid req.token req.identification req.local_stream_names
            s).0
          ≡ admitted (same_bytes (text "token") req.token) names)
        × ((confirm_session_request pb r' w' (some auth_validator) names t).0
            ≡ ok (sid, req.identification, req.local_stream_names))
  handshake-auth_validator names req p body sid rest rest' s s1 t t2 hp hb q m i e carried e'
        carried' =
      let (confirmed, opened) =
        handshake_agrees pb law r w r' w' delivers takes delivers' takes' (some auth_validator)
          names req p body sid rest rest' s s1 t t2 hp hb q m i e carried e' carried' in
      (opened ∙ answer-admitted names req, ap (λ g. g.0) confirmed)
