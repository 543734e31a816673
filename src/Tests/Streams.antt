-- ===== src/Tests/Streams.antt =====
-- Transfers on a concrete connection.
use go_wirenet.Base.{ap, ℕ, refl, false, List, [], ◌∷◌, ◌++◌, arith, Bytes, text, length-replicate}
use go_wirenet.Io.Chunked.{end_error, Wires, reader, writer, reader-Delivers, writer-IsWriter}
use go_wirenet.Stream.Conn.{Conn}
use go_wirenet.Stream.Defs.{Stream, new_stream, buf_size}
use go_wirenet.Stream.Transfer.{read_from, write_to}
use go_wirenet.Stream.Chunks.{chunked}
use go_wirenet.Stream.Chunking.{Cuts, read_from-Cuts}
use go_wirenet.Stream.Crossing.{write_to-read_from}
use go_wirenet.Stream.Delivery.{Moves, write_to-Moves}

abbrev pub conn : Conn Wires
conn = record { reader = reader 12; writer = writer; sess_closed = λ _. false }

abbrev pub two_chunks : List Bytes
two_chunks = (1 ∷ 2 ∷ 3 ∷ []) ∷ (4 ∷ []) ∷ []

abbrev pub arrived : Wires
arrived = record { inbox = chunked two_chunks ++ (9 ∷ []); outbox = [] }

abbrev pub echo : Stream
echo = new_stream (text "id") (text "echo")

write_to-Moves_example :
    Moves conn writer
      (reader-Delivers 12 (omega arith))
      writer-IsWriter
      (λ x p. refl)
      (λ x n. refl)
      (λ x p. refl)
      0
      (1 ∷ 2 ∷ 3 ∷ 4 ∷ [])
      (9 ∷ [])
      arrived
      (write_to conn writer 2000 echo arrived)
unfolding new_stream
write_to-Moves_example =
    write_to-Moves conn writer (reader-Delivers 12 (omega arith)) writer-IsWriter (λ x p. refl)
      (λ x n. refl) (λ x p. refl) two_chunks 2000 (9 ∷ []) echo arrived (omega arith) refl refl
      (length-replicate {A = ℕ} buf_size 0) (omega arith) refl

-- What there is to send.
abbrev source : Wires
source = record { inbox = 1 ∷ 2 ∷ 3 ∷ 4 ∷ []; outbox = [] }

read_from-Cuts_example :
    Cuts conn
      (reader 12)
      (reader-Delivers 12 (omega arith))
      writer-IsWriter
      (λ x p. refl)
      (λ x n e. ap end_error e)
      (λ x n. refl)
      (λ x p. refl)
      buf_size
      0
      (1 ∷ 2 ∷ 3 ∷ 4 ∷ [])
      source
      (read_from conn (reader 12) 9 echo source)
unfolding new_stream
read_from-Cuts_example =
    read_from-Cuts conn (reader 12) (reader-Delivers 12 (omega arith)) writer-IsWriter (λ x p. refl)
      (λ x n e. ap end_error e) (λ x n. refl) (λ x p. refl) 9 (1 ∷ 2 ∷ 3 ∷ 4 ∷ []) echo source
      (omega arith) refl (length-replicate {A = ℕ} buf_size 0) refl

-- The other end: all that was written has arrived, and one byte behind it.
abbrev carried_over : Wires
carried_over = record {
  inbox = (read_from conn (reader 12) 9 echo source).2.outbox ++ (9 ∷ []);
  outbox = [];
}

write_to-read_from_example :
    Moves conn writer
      (reader-Delivers 12 (omega arith))
      writer-IsWriter
      (λ x p. refl)
      (λ x n. refl)
      (λ x p. refl)
      0
      (1 ∷ 2 ∷ 3 ∷ 4 ∷ [])
      (9 ∷ [])
      carried_over
      (write_to conn writer 2000 echo carried_over)
unfolding new_stream
write_to-read_from_example =
    write_to-read_from conn (reader 12) (reader-Delivers 12 (omega arith)) writer-IsWriter
      (λ x p. refl) (λ x n e. ap end_error e) (λ x n. refl) (λ x p. refl) conn writer
      (reader-Delivers 12 (omega arith)) writer-IsWriter (λ x p. refl) (λ x n. refl) (λ x p. refl)
      (1 ∷ 2 ∷ 3 ∷ 4 ∷ []) (9 ∷ []) 9 2000 echo echo source carried_over (omega arith) (omega arith)
      refl refl (length-replicate {A = ℕ} buf_size 0) (length-replicate {A = ℕ} buf_size 0) refl
      refl (λ out e. ap (λ b. b ++ (9 ∷ [])) e)
