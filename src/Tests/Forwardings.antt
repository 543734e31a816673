-- ===== src/Tests/Forwardings.antt =====
-- A hub between two concrete connections.
use go_wirenet.Base.{
  ap, sym, if◌then◌else◌, ◌≡◌, refl, arith, [], ◌∷◌, ◌++◌, append-nil, Bytes, text, put_uint32,
  uint32, same_bytes,
}
use go_wirenet.Base.Assoc.{lookup, insert, remove}
use go_wirenet.Go.{ok}
use go_wirenet.Io.Copy.{copy_n, copy_loop}
use go_wirenet.Io.{Reader, Writer, Delivers, IsWriter}
use go_wirenet.Io.Chunked.{Wires, end_error, reader, writer, reader-Delivers, writer-IsWriter}
use go_wirenet.Frame.Format.{init_frame_typ, perm_frame_typ, recv_frame_typ, frame_bytes}
use go_wirenet.Frame.Encoder.{encode_new}
use go_wirenet.Frame.Decoder.{decode_new, read_body}
use go_wirenet.Stream.Defs.{Stream}
use go_wirenet.Wire.State.{Peer, Wire}
use go_wirenet.Wire.Registry.{find_session, register_session, index_names}
use go_wirenet.Session.State.{Session}
use go_wirenet.Session.Serve.{Ran, returned, dispatch_stream}
use go_wirenet.Session.Dispatch.{validate_token, is_hub_side}
use go_wirenet.Session.Forwarding.{forward, dispatch_stream_forwards}
use go_wirenet.Tests.Sessions.{busy}
use go_wirenet.Tests.Wires.{peer, empty_hub}

-- The connection on which the stream came, and the one to the other session.
record Two : Type 0 where
  near : Wires
  far : Wires

abbrev near_reader : Reader Two
near_reader = record {
  read = λ s n. let (b, e, x) = (reader 12).read s.near n in (b, e, record s { near = x });
}

abbrev far_reader : Reader Two
far_reader = record {
  read = λ s n. let (b, e, x) = (reader 12).read s.far n in (b, e, record s { far = x });
}

abbrev near_writer : Writer Two
near_writer = record {
  write = λ s p. let (n, e, x) = writer.write s.near p in (n, e, record s { near = x });
}

abbrev far_writer : Writer Two
far_writer = record {
  write = λ s p. let (n, e, x) = writer.write s.far p in (n, e, record s { far = x });
}

near-Delivers : Delivers near_reader (λ s. s.near.inbox)
near-Delivers =
    let law = reader-Delivers 12 (omega arith) in
    record {
      within = λ s n. law.within s.near n;
      front = λ s n. law.front s.near n;
      some_bytes = λ s n. law.some_bytes s.near n;
      no_error = λ s n. law.no_error s.near n;
      whole_header = λ s n. law.whole_header s.near n;
    }

far-Delivers : Delivers far_reader (λ s. s.far.inbox)
far-Delivers =
    let law = reader-Delivers 12 (omega arith) in
    record {
      within = λ s n. law.within s.far n;
      front = λ s n. law.front s.far n;
      some_bytes = λ s n. law.some_bytes s.far n;
      no_error = λ s n. law.no_error s.far n;
      whole_header = λ s n. law.whole_header s.far n;
    }

far-IsWriter : IsWriter far_writer (λ s. s.far.outbox)
far-IsWriter = record {
  within = λ s p. writer-IsWriter.within s.far p;
  whole = λ s p. writer-IsWriter.whole s.far p;
  takes = λ s p. writer-IsWriter.takes s.far p;
}

-- The sessions' connections: of the session with the id 1, and of the others.
abbrev reader_of : Peer → Reader Two
reader_of p = if same_bytes p.id (1 ∷ []) then far_reader else near_reader

abbrev writer_of : Peer → Writer Two
writer_of p = if same_bytes p.id (1 ∷ []) then far_writer else near_writer

abbrev returns : Unit {0} → Stream → Session → Ran
returns h t s = returned t s

abbrev a_hub : Wire (Unit {0})
a_hub = register_session (peer 1) empty_hub

abbrev asks : Bytes
asks = frame_bytes init_frame_typ (text "cam") (text "t")

abbrev agrees : Bytes
agrees = frame_bytes recv_frame_typ (text "cam") []

abbrev passes : Bytes
passes = frame_bytes perm_frame_typ (text "cam") []

abbrev connected : Bytes → Bytes → Bytes → Bytes → Two
connected a b c d = record {
  near = record { inbox = a; outbox = b };
  far = record { inbox = c; outbox = d };
}

abbrev start : Two
start = connected (asks ++ (1 ∷ 2 ∷ 3 ∷ [])) [] agrees []

abbrev answered : Two
answered = connected (1 ∷ 2 ∷ 3 ∷ []) agrees agrees []

agrees_sent :
    encode_new near_writer recv_frame_typ (text "cam") [] (decode_new near_reader start).1
    ≡ (ok tt, answered)
unfolding encode_new copy_n copy_loop put_uint32 decode_new read_body uint32
agrees_sent = refl

passes_sent :
    encode_new far_writer perm_frame_typ (text "cam") [] answered
    ≡ (ok tt, connected (1 ∷ 2 ∷ 3 ∷ []) agrees agrees passes)
unfolding encode_new copy_n copy_loop put_uint32
passes_sent = refl

dispatch_stream_forwards_example :
    (x' : Two) × (dispatch_stream a_hub returns [] []
        (forward near_reader reader_of writer_of a_hub 9)
        near_reader
        near_writer
        (7 ∷ [])
        busy
        start
      ≡ (ok ([], busy), x'))
    × (x'.far.outbox ≡ [] ++ (passes ++ (1 ∷ 2 ∷ 3 ∷ [])))
    × (x'.near.inbox ≡ [])
unfolding validate_token find_session register_session index_names insert remove lookup same_bytes
    is_hub_side
dispatch_stream_forwards_example =
    dispatch_stream_forwards near_reader reader_of writer_of a_hub 9 near_writer returns [] []
      (peer 1) near-Delivers far-Delivers far-IsWriter (λ x p. refl) (λ x n e. ap end_error e)
      (λ x n. refl) (λ x n. refl) (λ x p. refl) (λ x n. refl) (λ x p. refl) (λ x p. refl) (7 ∷ [])
      (text "cam") (text "t") (1 ∷ 2 ∷ 3 ∷ []) [] init_frame_typ busy start answered
      (connected (1 ∷ 2 ∷ 3 ∷ []) agrees agrees passes) (omega arith) (omega arith) (omega arith)
      (omega arith) refl refl refl refl agrees_sent passes_sent (sym (append-nil agrees))
