-- ===== src/Wire/Safety.antt =====
-- The handshake against any peer.
use go_wirenet.Base.{ltb, Bool, true, false, Option, List, Bytes, length, text, if◌then◌else◌}
use go_wirenet.Go.{Error, other, pure, throw, lift, >>=-Ensures}
use go_wirenet.Io.{Reader, Writer, IsReader, IsWriter}
use go_wirenet.Frame.Format.{open_sess_typ, conf_sess_type}
use go_wirenet.Frame.Encoder.{encode_new}
use go_wirenet.Frame.Decoder.{decode_new}
use go_wirenet.Frame.Safety.{IsReadable, Ends, decode_new-Ensures, encode_new-Ends}
use go_wirenet.Wire.Handshake.{
  Protobuf, Validator, OpenSessionRequest, OpenSessionResponse, refusal_text, open_session_request,
  answer_request, confirm_session_request,
}

-- The libraries return a value or an error.
pub record IsTotal (pb : Protobuf) : Type 0 where
  pub puts_request : (x : OpenSessionRequest) → Ends (pb.marshal_request x)
  pub gets_request : (b : Bytes) → Ends (pb.unmarshal_request b)
  pub puts_response : (x : OpenSessionResponse) → Ends (pb.marshal_response x)
  pub gets_response : (b : Bytes) → Ends (pb.unmarshal_response b)
  pub gets_uuid : (b : Bytes) → Ends (pb.uuid_from_bytes b)

chosen-Ends :
    {S : Type 0} (b : Bool) (e : Error) (names : List Bytes) (s : S)
    → Ends ((if b then throw e else pure names) s).0
chosen-Ends true e names s = tt
chosen-Ends false e names s = tt

abbrev Any {ℓ} : {A : Type ℓ} → A → Type 0
Any _ = Unit

module _ (pb : Protobuf) (total : IsTotal pb) {S : Type 0} (r : Reader S) (w : Writer S)
    {sent : S → Bytes} (reads : IsReader r) (writes : IsWriter w sent) where
  answer_request-Ends :
      (fn : Option Validator) (names : List Bytes) (req : OpenSessionRequest) (s : S)
      → Ends (answer_request pb r w fn names req s).0
  unfolding answer_request
  answer_request-Ends fn names req s =
      let resp : OpenSessionResponse = record {
        sid = req.sid;
        remote_stream_names = names;
        err_text = refusal_text fn req;
      } in
      >>=-Ensures Any Any (lift (pb.marshal_response resp)) _ s (total.puts_response resp) λ b s1 _.
        >>=-Ensures Any Any (encode_new w conf_sess_type (text "confirmSession") b) _ s1
          (encode_new-Ends w writes conf_sess_type (text "confirmSession") b s1)
          λ _ s2 _.
            >>=-Ensures Any Any (lift (pb.uuid_from_bytes req.sid)) _ s2 (total.gets_uuid req.sid)
              (λ sid s3 _. tt)

  -- The server's end of the handshake comes to an end with no panic, whatever a client sends.
  pub confirm_session_request-Ends :
      (fn : Option Validator) (names : List Bytes) (s : S)
      → Ends (confirm_session_request pb r w fn names s).0
  unfolding confirm_session_request
  confirm_session_request-Ends fn names s =
      >>=-Ensures IsReadable Any (decode_new r) _ s (decode_new-Ensures r reads s) λ f s1 h.
        rw h.has_payload (
          >>=-Ensures Any Any (lift (pb.unmarshal_request h.body)) _ s1 (total.gets_request h.body)
            (λ req s2 _. answer_request-Ends fn names req s2))

  -- The client's end of the handshake comes to an end with no panic, whatever the server replies.
  pub open_session_request-Ends :
      (sid token id : Bytes) (names : List Bytes) (s : S)
      → Ends (open_session_request pb r w sid token id names s).0
  unfolding open_session_request
  open_session_request-Ends sid token id names s =
      let req : OpenSessionRequest = record {
        sid = sid;
        token = token;
        local_stream_names = names;
        identification = id;
      } in
      >>=-Ensures Any Any (lift (pb.marshal_request req)) _ s (total.puts_request req) λ b s1 _.
        >>=-Ensures Any Any (encode_new w open_sess_typ (text "openSession") b) _ s1
          (encode_new-Ends w writes open_sess_typ (text "openSession") b s1)
          λ _ s2 _.
            >>=-Ensures IsReadable Any (decode_new r) _ s2 (decode_new-Ensures r reads s2) λ f s3 h.
              rw h.has_payload (
                >>=-Ensures Any Any (lift (pb.unmarshal_response h.body)) _ s3
                  (total.gets_response h.body)
                  (λ resp s4 _.
                    chosen-Ends (ltb 0 (length resp.err_text)) (other resp.err_text)
                      resp.remote_stream_names s4))
