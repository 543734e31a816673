-- ===== src/Tests/Frames.antt =====
-- Frames on concrete connections.
use go_wirenet.Base.{◌≡◌, refl, some, [], ◌∷◌, ◌++◌, arith, Bytes, text, uint32, put_uint32}
use go_wirenet.Go.{ok}
use go_wirenet.Io.Chunked.{Wires, reader, writer, reader-IsReader, reader-Delivers, writer-IsWriter}
use go_wirenet.Frame.Format.{header, frame_bytes, command, payload_len, body_end, perm_frame_typ}
use go_wirenet.Frame.Encoder.{encode_new}
use go_wirenet.Frame.Decoder.{decode_new, read_body}
use go_wirenet.Frame.Shape.{IsDecoded, decode_new-IsDecoded}
use go_wirenet.Frame.Written.{Sends, encode_new-Sends}
use go_wirenet.Frame.RoundTrip.{decode_new-frame_bytes}

abbrev pub holding : Bytes → Wires
holding bytes = record { inbox = bytes; outbox = [] }

abbrev pub hello : Bytes
hello = frame_bytes perm_frame_typ (text "echo") (1 ∷ 2 ∷ 3 ∷ [])

decode_hello : (decode_new (reader 12) (holding (hello ++ 7 ∷ []))).0 ≡ ok hello
unfolding decode_new read_body put_uint32 uint32
decode_hello = refl

-- The peer is gone after one byte of the body: the rest of the frame is zeros, and no error is seen.
decode_cut :
    (decode_new (reader 12) (holding (header 8 1 2 ++ text "a"))).0
    ≡ ok (header 8 1 2 ++ (text "a" ++ (0 ∷ 0 ∷ [])))
unfolding decode_new read_body put_uint32 uint32
decode_cut = refl

command-hello : command hello ≡ some (text "echo")
unfolding command payload_len body_end put_uint32 uint32
command-hello = refl

decode_new-frame_bytes_example :
    ((decode_new (reader 12) (holding (hello ++ 7 ∷ []))).0 ≡ ok hello)
    × ((decode_new (reader 12) (holding (hello ++ 7 ∷ []))).1.inbox ≡ 7 ∷ [])
decode_new-frame_bytes_example =
    decode_new-frame_bytes (reader 12) (reader-Delivers 12 (omega arith)) perm_frame_typ
      (text "echo") (1 ∷ 2 ∷ 3 ∷ []) (7 ∷ []) (holding (hello ++ 7 ∷ [])) (omega arith)
      (omega arith) refl

decode_new-IsDecoded_example : IsDecoded (decode_new (reader 3) (holding hello)).0
decode_new-IsDecoded_example = decode_new-IsDecoded (reader 3) (reader-IsReader 3) (holding hello)

encode_new-Sends_example :
    Sends writer writer-IsWriter hello
      (holding [])
      (encode_new writer perm_frame_typ (text "echo") (1 ∷ 2 ∷ 3 ∷ []) (holding []))
encode_new-Sends_example =
    encode_new-Sends writer writer-IsWriter perm_frame_typ (text "echo") (1 ∷ 2 ∷ 3 ∷ [])
      (holding [])
