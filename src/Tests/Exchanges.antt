-- ===== src/Tests/Exchanges.antt =====
-- Requests and their replies on concrete connections.
use go_wirenet.Base.{◌≡◌, refl, some, [], ◌∷◌, ◌++◌, arith, Bytes, text, put_uint32, uint32}
use go_wirenet.Go.{ok, err, other, message, stream_handler_not_found}
use go_wirenet.Io.Copy.{copy_n, copy_loop}
use go_wirenet.Io.Chunked.{Wires, reader, writer, reader-Delivers}
use go_wirenet.Frame.Format.{frame_bytes, err_frame_typ, init_frame_typ, typ, command, payload}
use go_wirenet.Frame.Encoder.{encode_new}
use go_wirenet.Frame.Decoder.{decode_new, read_body}
use go_wirenet.Frame.Exchange.{send_frame}
use go_wirenet.Frame.Fields.{frame_fields}
use go_wirenet.Frame.Replies.{reply, send_frame-reply}

frame_fields_example :
    let f = frame_bytes init_frame_typ (text "echo") (1 ∷ 2 ∷ []) in
    (typ f ≡ some 2) × (command f ≡ some (text "echo")) × (payload f ≡ some (1 ∷ 2 ∷ []))
frame_fields_example =
    frame_fields init_frame_typ (text "echo") (1 ∷ 2 ∷ []) (omega arith) (omega arith) (omega arith)

abbrev pub request : Bytes
request = frame_bytes init_frame_typ (text "echo") (text "cam")

abbrev pub refusal : Bytes
refusal = reply (text "echo") (some stream_handler_not_found)

abbrev pub asking : Wires
asking = record { inbox = refusal ++ 7 ∷ []; outbox = [] }

pub request_sent :
    encode_new writer init_frame_typ (text "echo") (text "cam") asking
    ≡ (ok tt, record { inbox = refusal ++ 7 ∷ []; outbox = request })
unfolding encode_new copy_n copy_loop put_uint32
request_sent = refl

send_frame-reply_example :
    let (r, s) = send_frame (reader 12) writer (text "echo") init_frame_typ (text "cam") asking in
    (r ≡ err (other (message stream_handler_not_found))) × (s.inbox ≡ 7 ∷ [])
unfolding message
send_frame-reply_example =
    send_frame-reply (reader 12) writer (reader-Delivers 12 (omega arith)) (text "echo")
      init_frame_typ (text "cam") (text "echo") (some stream_handler_not_found) (7 ∷ []) asking
      (record { inbox = refusal ++ 7 ∷ []; outbox = request }) request_sent (omega arith)
      (omega arith) refl

abbrev pub asked : Wires
asked = record { inbox = request ++ 7 ∷ []; outbox = [] }

abbrev pub request_read : Wires
request_read = record { inbox = 7 ∷ []; outbox = [] }

pub reads_request : (decode_new (reader 12) asked).1 ≡ request_read
unfolding decode_new read_body put_uint32 uint32
reads_request = refl

pub refusal_sent :
    encode_new writer err_frame_typ (text "echo") (message stream_handler_not_found) request_read
    ≡ (ok tt, record { inbox = 7 ∷ []; outbox = refusal })
unfolding encode_new copy_n copy_loop put_uint32 message
refusal_sent = refl
