-- ===== src/Tests/Accepting.antt =====
-- A stream that passes the checks, on a concrete connection.
use go_wirenet.Base.{ap, ◌≡◌, ◌∙◌, refl, arith, [], ◌∷◌, text, put_uint32}
use go_wirenet.Base.Assoc.{lookup}
use go_wirenet.Base.{same_bytes}
use go_wirenet.Go.{ok, pure}
use go_wirenet.Io.Copy.{copy_n, copy_loop}
use go_wirenet.Io.Chunked.{Wires, reader, writer, reader-Delivers}
use go_wirenet.Frame.Format.{init_frame_typ, recv_frame_typ, frame_bytes}
use go_wirenet.Frame.Encoder.{encode_new}
use go_wirenet.Stream.Defs.{Stream}
use go_wirenet.Wire.Registry.{find_handler}
use go_wirenet.Session.State.{Session}
use go_wirenet.Session.Serve.{Ran, returned, dispatch_stream}
use go_wirenet.Session.Dispatch.{validate_token, validate_stream_name, is_hub_side}
use go_wirenet.Session.Serving.{Served, dispatch_stream-valid}
use go_wirenet.Tests.Sessions.{busy}
use go_wirenet.Tests.Exchanges.{asked, request_read, reads_request}
use go_wirenet.Tests.Serving.{with_echo}

abbrev returns : Unit {0} → Stream → Session → Ran
returns h t s = returned t s

abbrev accepted : Wires
accepted = record { inbox = 7 ∷ []; outbox = frame_bytes recv_frame_typ (text "echo") [] }

acceptance_sent : encode_new writer recv_frame_typ (text "echo") [] request_read ≡ (ok tt, accepted)
unfolding encode_new copy_n copy_loop put_uint32
acceptance_sent = refl

dispatch_stream-valid_example :
    Served with_echo returns [] []
      (λ p name. pure tt)
      (5 ∷ [])
      (text "echo")
      busy
      accepted
      (dispatch_stream with_echo returns [] []
        (λ p name. pure tt)
        (reader 12)
        writer
        (5 ∷ [])
        busy
        asked)
unfolding validate_token validate_stream_name find_handler lookup same_bytes is_hub_side
dispatch_stream-valid_example =
    dispatch_stream-valid with_echo returns [] [] (λ p name. pure tt) (reader 12) writer
      (reader-Delivers 12 (omega arith)) (5 ∷ []) (text "echo") (text "cam") (7 ∷ []) init_frame_typ
      busy asked accepted (omega arith) (omega arith) (omega arith) refl refl
      (ap (λ s. encode_new writer recv_frame_typ (text "echo") [] s) reads_request
        ∙ acceptance_sent)
