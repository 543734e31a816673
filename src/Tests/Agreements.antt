-- ===== src/Tests/Agreements.antt =====
-- OpenStream and the check at the other end, on two concrete connections.
use go_wirenet.Base.{
  ap, sym, ◌≡◌, ◌∙◌, refl, arith, false, some, [], ◌++◌, append-nil, Bytes, text, put_uint32,
  uint32,
}
use go_wirenet.Base.Assoc.{lookup}
use go_wirenet.Go.{ok, err, other, message, stream_handler_not_found}
use go_wirenet.Io.Copy.{copy_n, copy_loop}
use go_wirenet.Io.Chunked.{Wires, reader, writer, reader-Delivers, writer-IsWriter}
use go_wirenet.Frame.Format.{perm_frame_typ, err_frame_typ, frame_bytes}
use go_wirenet.Frame.Encoder.{encode_new}
use go_wirenet.Frame.Decoder.{decode_new, read_body}
use go_wirenet.Frame.Apart.{decode_new_apart}
use go_wirenet.Wire.Registry.{find_handler}
use go_wirenet.Session.Dispatch.{
  read_frame, open_stream, validate_token, validate_stream_name, is_hub_side,
}
use go_wirenet.Session.Agreement.{open_stream_agrees}
use go_wirenet.Tests.Exchanges.{refusal}
use go_wirenet.Tests.Serving.{server}

abbrev question : Bytes
question = frame_bytes perm_frame_typ (text "echo") (text "cam")

abbrev here : Wires
here = record { inbox = refusal; outbox = [] }

abbrev there : Wires
there = record { inbox = question; outbox = [] }

question_sent :
    encode_new writer perm_frame_typ (text "echo") (text "cam") here
    ≡ (ok tt, record { inbox = refusal; outbox = question })
unfolding encode_new copy_n copy_loop put_uint32
question_sent = refl

refused_back :
    encode_new writer err_frame_typ
      (text "echo")
      (message stream_handler_not_found)
      (decode_new (reader 12) there).1
    ≡ (ok tt, record { inbox = []; outbox = refusal })
unfolding encode_new copy_n copy_loop put_uint32 decode_new read_body uint32 message
refused_back = refl

-- A server with no handler.
open_stream_agrees_example :
    (read_frame server (reader 12) writer [] there
      ≡ (ok (question, some stream_handler_not_found), record { inbox = []; outbox = refusal }))
    × ((open_stream (reader 12) writer false (text "cam") (text "echo") here).0
        ≡ err (other (message stream_handler_not_found)))
unfolding validate_token validate_stream_name find_handler lookup is_hub_side message
open_stream_agrees_example =
    open_stream_agrees server (reader 12) writer (reader 12) writer
      (reader-Delivers 12 (omega arith)) writer-IsWriter (reader-Delivers 12 (omega arith))
      writer-IsWriter [] (text "echo") (text "cam") [] [] (some stream_handler_not_found) here
      (record { inbox = refusal; outbox = question }) there
      (record { inbox = []; outbox = refusal }) refl (omega arith) (omega arith) (omega arith)
      question_sent (λ out e. e ∙ sym (append-nil out)) refused_back
      (λ out e.
        e
        ∙ ap (λ b. b ++ out) (decode_new_apart (λ s. s.outbox) (reader 12) (λ s n. refl) there)
        ∙ sym (append-nil out))
