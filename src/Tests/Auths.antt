-- ===== src/Tests/Auths.antt =====
-- The handshake of examples/auth on concrete connections.
use go_wirenet.Base.{
  ◌≡◌, refl, ap, sym, ◌∙◌, some, [], ◌∷◌, ◌++◌, append-nil, arith, Bytes, text, put_uint32, uint32,
  same_bytes,
}
use go_wirenet.Go.{ok, err, other, message}
use go_wirenet.Io.Copy.{copy_n, copy_loop}
use go_wirenet.Io.Chunked.{reader, writer, reader-Delivers, writer-IsWriter}
use go_wirenet.Frame.Format.{frame_bytes, open_sess_typ, conf_sess_type}
use go_wirenet.Frame.Encoder.{encode_new}
use go_wirenet.Frame.Decoder.{decode_new, read_body}
use go_wirenet.Frame.Apart.{decode_new_apart}
use go_wirenet.Wire.Handshake.{OpenSessionRequest, open_session_request, confirm_session_request}
use go_wirenet.Examples.Auth.{auth_validator, handshake-auth_validator}
use go_wirenet.Tests.Handshakes.{codec, codec-IsProtobuf, pack}

-- What the client of examples/auth/digitalocean.svc asks.
abbrev req : OpenSessionRequest
req = record {
  sid = 9 ∷ [];
  token = text "badtoken";
  local_stream_names = text "digitalocean:read" ∷ [];
  identification = text "digitalocean.svc";
}

abbrev req_body : Bytes
req_body = pack (req.sid ∷ req.token ∷ req.identification ∷ req.local_stream_names)

abbrev resp_body : Bytes
resp_body = pack (req.sid ∷ text "invalid token" ∷ [])

abbrev req_frame : Bytes
req_frame = frame_bytes open_sess_typ (text "openSession") req_body

abbrev resp_frame : Bytes
resp_frame = frame_bytes conf_sess_type (text "confirmSession") resp_body

response_sent :
    encode_new writer conf_sess_type
      (text "confirmSession")
      resp_body
      (decode_new (reader 12) (record { inbox = req_frame; outbox = [] })).1
    ≡ (ok tt, record { inbox = []; outbox = resp_frame })
unfolding encode_new copy_n copy_loop put_uint32 decode_new read_body uint32
response_sent = refl

request_sent :
    encode_new writer open_sess_typ
      (text "openSession")
      req_body
      (record { inbox = resp_frame; outbox = [] })
    ≡ (ok tt, record { inbox = resp_frame; outbox = req_frame })
unfolding encode_new copy_n copy_loop put_uint32
request_sent = refl

handshake-auth_validator_example :
    ((open_session_request codec
        (reader 12)
        writer
        (9 ∷ [])
        (text "badtoken")
        (text "digitalocean.svc")
        (text "digitalocean:read" ∷ [])
        (record { inbox = resp_frame; outbox = [] })).0
      ≡ err (other (text "invalid token")))
    × ((confirm_session_request codec
          (reader 12)
          writer
          (some auth_validator)
          []
          (record { inbox = req_frame; outbox = [] })).0
        ≡ ok (9 ∷ [], text "digitalocean.svc", text "digitalocean:read" ∷ []))
unfolding message auth_validator same_bytes
handshake-auth_validator_example =
    handshake-auth_validator codec codec-IsProtobuf (reader 12) writer (reader 12) writer
      (reader-Delivers 12 (omega arith)) writer-IsWriter (reader-Delivers 12 (omega arith))
      writer-IsWriter [] req req_body resp_body (9 ∷ []) [] []
      (record { inbox = resp_frame; outbox = [] })
      (record { inbox = resp_frame; outbox = req_frame })
      (record { inbox = req_frame; outbox = [] }) (record { inbox = []; outbox = resp_frame })
      (omega arith) (omega arith) refl refl refl request_sent (λ out e. e ∙ sym (append-nil out))
      response_sent
      (λ out e.
        e
        ∙ ap (λ b. b ++ out)
            (decode_new_apart (λ s. s.outbox) (reader 12) (λ s n. refl)
              (record { inbox = req_frame; outbox = [] }))
        ∙ sym (append-nil out))
