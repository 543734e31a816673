-- ===== src/Tests/Handshakes.antt =====
-- The two ends of a handshake on concrete connections, with a codec in place of protobuf: the bytes
-- of each string, one up, and a 0 behind it.
use go_wirenet.Base.{
  ℕ, zero, suc, ◌≡◌, refl, ap, sym, ◌∙◌, some, Option, List, [], ◌∷◌, ◌++◌, append-nil, arith,
  Bytes, text, put_uint32, uint32,
}
use go_wirenet.Go.{Go, ok, err, panic, stuck, other, eof, message}
use go_wirenet.Io.Copy.{copy_n, copy_loop}
use go_wirenet.Io.Chunked.{reader, writer, reader-Delivers, writer-IsWriter}
use go_wirenet.Frame.Format.{frame_bytes, open_sess_typ, conf_sess_type}
use go_wirenet.Frame.Encoder.{encode_new}
use go_wirenet.Frame.Decoder.{decode_new, read_body}
use go_wirenet.Frame.Apart.{decode_new_apart}
use go_wirenet.Wire.Handshake.{
  Protobuf, Validator, OpenSessionRequest, OpenSessionResponse, open_session_request,
  confirm_session_request,
}
use go_wirenet.Wire.Agreement.{handshake_agrees}
use go_wirenet.Wire.Refusal.{IsProtobuf, confirm_session_request-accepts}

abbrev pack_one : Bytes → Bytes → Bytes
pack_one [] t = zero ∷ t
pack_one (b ∷ bs) t = suc b ∷ pack_one bs t

abbrev pub pack : List Bytes → Bytes
pack [] = []
pack (x ∷ xs) = pack_one x (pack xs)

abbrev push : ℕ → List Bytes → List Bytes
push b [] = []
push b (x ∷ xs) = (b ∷ x) ∷ xs

abbrev pub unpack : Bytes → List Bytes
unpack [] = []
unpack (zero ∷ t) = [] ∷ unpack t
unpack (suc b ∷ t) = push b (unpack t)

unpack-pack_one : (x t : Bytes) → unpack (pack_one x t) ≡ x ∷ unpack t
unpack-pack_one [] t = refl
unpack-pack_one (b ∷ bs) t = ap (push b) (unpack-pack_one bs t)

unpack-pack : (xs : List Bytes) → unpack (pack xs) ≡ xs
unpack-pack [] = refl
unpack-pack (x ∷ xs) = unpack-pack_one x (pack xs) ∙ ap (◌∷◌ x) (unpack-pack xs)

abbrev pub to_request : List Bytes → Go OpenSessionRequest
to_request (sid ∷ token ∷ id ∷ names) =
    ok (record { sid = sid; token = token; local_stream_names = names; identification = id })
to_request _ = err eof

abbrev pub to_response : List Bytes → Go OpenSessionResponse
to_response (sid ∷ text ∷ names) =
    ok (record { sid = sid; remote_stream_names = names; err_text = text })
to_response _ = err eof

abbrev and_then : {A : Type 0} → (Bytes → Go A) → Go Bytes → Go A
and_then f (ok b) = f b
and_then f (err e) = err e
and_then f panic = panic
and_then f stuck = stuck

abbrev pub codec : Protobuf
codec = record {
  marshal_request = λ x. ok (pack (x.sid ∷ x.token ∷ x.identification ∷ x.local_stream_names));
  unmarshal_request = λ b. to_request (unpack b);
  marshal_response = λ x. ok (pack (x.sid ∷ x.err_text ∷ x.remote_stream_names));
  unmarshal_response = λ b. to_response (unpack b);
  uuid_from_bytes = λ b. ok b;
}

pub codec-IsProtobuf : IsProtobuf codec
codec-IsProtobuf = record {
  requests = λ x b e.
      ap (and_then (λ c. to_request (unpack c))) (sym e)
      ∙ ap to_request (unpack-pack (x.sid ∷ x.token ∷ x.identification ∷ x.local_stream_names));
  responses = λ x b e.
      ap (and_then (λ c. to_response (unpack c))) (sym e)
      ∙ ap to_response (unpack-pack (x.sid ∷ x.err_text ∷ x.remote_stream_names));
}

-- A validator that refuses every token.
abbrev refuse : Option Validator
refuse = some (λ _ _ _. some (other (text "no")))

abbrev req : OpenSessionRequest
req = record {
  sid = 9 ∷ [];
  token = text "t";
  local_stream_names = text "cam" ∷ [];
  identification = text "me";
}

abbrev req_body : Bytes
req_body = pack (req.sid ∷ req.token ∷ req.identification ∷ req.local_stream_names)

abbrev resp_body : Bytes
resp_body = pack (req.sid ∷ text "no" ∷ text "log" ∷ [])

abbrev req_frame : Bytes
req_frame = frame_bytes open_sess_typ (text "openSession") req_body

abbrev resp_frame : Bytes
resp_frame = frame_bytes conf_sess_type (text "confirmSession") resp_body

response_sent :
    encode_new writer conf_sess_type
      (text "confirmSession")
      resp_body
      (decode_new (reader 12) (record { inbox = req_frame; outbox = [] })).1
    ≡ (ok tt, record { inbox = []; outbox = resp_frame })
unfolding encode_new copy_n copy_loop put_uint32 decode_new read_body uint32
response_sent = refl

pub request_sent :
    encode_new writer open_sess_typ
      (text "openSession")
      req_body
      (record { inbox = resp_frame; outbox = [] })
    ≡ (ok tt, record { inbox = resp_frame; outbox = req_frame })
unfolding encode_new copy_n copy_loop put_uint32
request_sent = refl

confirm_session_request-accepts_example :
    confirm_session_request codec
      (reader 12)
      writer
      refuse
      (text "log" ∷ [])
      (record { inbox = req_frame; outbox = [] })
    ≡ (ok (9 ∷ [], text "me", text "cam" ∷ []), record { inbox = []; outbox = resp_frame })
unfolding message
confirm_session_request-accepts_example =
    confirm_session_request-accepts codec codec-IsProtobuf (reader 12) writer
      (reader-Delivers 12 (omega arith)) refuse (text "log" ∷ []) req req_body resp_body (9 ∷ []) []
      (record { inbox = req_frame; outbox = [] }) (record { inbox = []; outbox = resp_frame })
      (omega arith) (sym (append-nil req_frame)) refl refl response_sent refl

handshake_agrees_example :
    (confirm_session_request codec
        (reader 12)
        writer
        refuse
        (text "log" ∷ [])
        (record { inbox = req_frame; outbox = [] })
      ≡ (ok (9 ∷ [], text "me", text "cam" ∷ []), record { inbox = []; outbox = resp_frame }))
    × ((open_session_request codec
          (reader 12)
          writer
          (9 ∷ [])
          (text "t")
          (text "me")
          (text "cam" ∷ [])
          (record { inbox = resp_frame; outbox = [] })).0
        ≡ err (other (text "no")))
unfolding message
handshake_agrees_example =
    handshake_agrees codec codec-IsProtobuf (reader 12) writer (reader 12) writer
      (reader-Delivers 12 (omega arith)) writer-IsWriter (reader-Delivers 12 (omega arith))
      writer-IsWriter refuse (text "log" ∷ []) req req_body resp_body (9 ∷ []) [] []
      (record { inbox = resp_frame; outbox = [] })
      (record { inbox = resp_frame; outbox = req_frame })
      (record { inbox = req_frame; outbox = [] }) (record { inbox = []; outbox = resp_frame })
      (omega arith) (omega arith) refl refl refl request_sent (λ out e. e ∙ sym (append-nil out))
      response_sent
      (λ out e.
        e
        ∙ ap (λ b. b ++ out)
            (decode_new_apart (λ s. s.outbox) (reader 12) (λ s n. refl)
              (record { inbox = req_frame; outbox = [] }))
        ∙ sym (append-nil out))
