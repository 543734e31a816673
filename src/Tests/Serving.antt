-- ===== src/Tests/Serving.antt =====
-- Servers, sessions and peers that do not keep to the protocol.
use go_wirenet.Base.{
  ◌≡◌, ◌∙◌, refl, ap, false, true, none, List, [], ◌∷◌, ◌++◌, map, arith, Bytes, text,
}
use go_wirenet.Base.Assoc.{lookup}
use go_wirenet.Go.{ok, err, eof, message, stream_handler_not_found, pure}
use go_wirenet.Io.Chunked.{Wires, reader, writer, reader-IsReader, reader-Delivers, writer-IsWriter}
use go_wirenet.Frame.Format.{init_frame_typ, err_frame_typ}
use go_wirenet.Frame.Encoder.{encode_new}
use go_wirenet.Frame.Safety.{Ends}
use go_wirenet.Stream.Defs.{Stream}
use go_wirenet.Wire.State.{Wire}
use go_wirenet.Wire.Registry.{find_handler}
use go_wirenet.Wire.Handshake.{confirm_session_request}
use go_wirenet.Wire.Safety.{IsTotal, confirm_session_request-Ends}
use go_wirenet.Wire.Server.{Confirmed, not_accepted, closed_by, accept_server}
use go_wirenet.Wire.Serving.{confirmed, client, accept_server_serves}
use go_wirenet.Session.State.{Session}
use go_wirenet.Session.Serve.{Ran, panicked, err_log, dispatch_stream}
use go_wirenet.Session.Handlers.{dispatch_stream-invalid}
use go_wirenet.Session.Dispatch.{validate_stream_name, validate_token}
use go_wirenet.Session.Safety.{dispatch_stream-Ends}
use go_wirenet.Tests.Wires.{a_wire}
use go_wirenet.Tests.Sessions.{busy}
use go_wirenet.Tests.Exchanges.{asked, reads_request, refusal, refusal_sent}
use go_wirenet.Tests.Handshakes.{codec, to_request, to_response, unpack}

-- A peer that sends three bytes and no more.
abbrev noise : Wires
noise = record { inbox = 1 ∷ 2 ∷ 3 ∷ []; outbox = [] }

to_request-Ends : (xs : List Bytes) → Ends (to_request xs)
to_request-Ends [] = tt
to_request-Ends (a ∷ []) = tt
to_request-Ends (a ∷ b ∷ []) = tt
to_request-Ends (a ∷ b ∷ c ∷ xs) = tt

to_response-Ends : (xs : List Bytes) → Ends (to_response xs)
to_response-Ends [] = tt
to_response-Ends (a ∷ []) = tt
to_response-Ends (a ∷ b ∷ xs) = tt

codec-IsTotal : IsTotal codec
codec-IsTotal = record {
  puts_request = λ x. tt;
  gets_request = λ b. to_request-Ends (unpack b);
  puts_response = λ x. tt;
  gets_response = λ b. to_response-Ends (unpack b);
  gets_uuid = λ b. tt;
}

confirm_session_request-Ends_example :
    Ends (confirm_session_request codec (reader 2) writer none [] noise).0
confirm_session_request-Ends_example =
    confirm_session_request-Ends codec codec-IsTotal (reader 2) writer (reader-IsReader 2)
      writer-IsWriter none [] noise

abbrev pub server : Wire (Unit {0})
server = a_wire false false 0 []

-- Two clients, of which the second fails its handshake.
abbrev clients : List Confirmed
clients = ok (1 ∷ [], text "me", text "cam" ∷ []) ∷ err eof ∷ []

accept_server_serves_example :
    accept_server none
      (map client clients ++ record { closes = true; incoming = not_accepted eof } ∷ [])
      server
    ≡ (ok none, confirmed clients, record (closed_by true server) { conn = false })
accept_server_serves_example = accept_server_serves clients true eof [] server refl (tt, (tt, tt))

abbrev pub with_echo : Wire (Unit {0})
with_echo = record server { handlers = (text "echo", tt) ∷ [] }

-- A handler that panics at once.
abbrev panics : Unit {0} → Stream → Session → Ran
panics h t s = panicked (text "boom") s

dispatch_stream-Ends_example :
    Ends
      (dispatch_stream with_echo panics [] [] (λ p name. pure tt) (reader 2) writer [] busy noise).0
dispatch_stream-Ends_example =
    dispatch_stream-Ends with_echo panics [] [] (λ p name. pure tt) (λ p name x. tt) (reader 2)
      writer (reader-IsReader 2) writer-IsWriter [] busy noise

-- The server has no handler at all.
dispatch_stream-invalid_example :
    dispatch_stream server panics [] [] (λ p name. pure tt) (reader 12) writer [] busy asked ≡ (
      ok (err_log [] [] busy stream_handler_not_found (text "validate stream") ∷ [], busy),
      record { inbox = 7 ∷ []; outbox = refusal },
    )
unfolding validate_token validate_stream_name find_handler lookup
dispatch_stream-invalid_example =
    dispatch_stream-invalid server panics [] [] (λ p name. pure tt) (reader 12) writer
      (reader-Delivers 12 (omega arith)) [] (text "echo") (text "cam") (7 ∷ []) init_frame_typ
      stream_handler_not_found busy asked (record { inbox = 7 ∷ []; outbox = refusal })
      (omega arith) (omega arith) (omega arith) refl refl
      (ap (λ s. encode_new writer err_frame_typ (text "echo") (message stream_handler_not_found) s)
          reads_request
        ∙ refusal_sent)
