-- ===== src/Tests/Readers.antt =====
-- A Read of a stream's reader on a concrete connection.
use go_wirenet.Base.{◌≡◌, length, put_uint32, refl, inl, [], ◌∷◌, arith, length-take, min}
use go_wirenet.Io.Chunked.{reader-Delivers}
use go_wirenet.Stream.ReaderWriter.{new_reader, reader_read}
use go_wirenet.Stream.Defs.{new_stream}
use go_wirenet.Stream.Reading.{Reads, reader_read-Reads}
use go_wirenet.Tests.Streams.{conn, echo, arrived, two_chunks}

arrived-length : length arrived.inbox ≡ 17
unfolding put_uint32
arrived-length = refl

reader_read-Reads_example :
    Reads conn
      (reader-Delivers 12 (omega arith))
      12
      (omega arith)
      (λ x n small there. omega (arith, length-take (min 12 n) x.inbox))
      (9 ∷ [])
      2
      (1 ∷ 2 ∷ 3 ∷ 4 ∷ [])
      (reader_read conn 40 echo 2 new_reader arrived)
unfolding new_stream
reader_read-Reads_example =
    reader_read-Reads conn (reader-Delivers 12 (omega arith)) 12 (omega arith)
      (λ x n small there. omega (arith, length-take (min 12 n) x.inbox)) (9 ∷ []) 40 2
      (1 ∷ 2 ∷ 3 ∷ 4 ∷ []) echo new_reader arrived (omega arith) (omega (arith, arrived-length))
      refl (inl (two_chunks, (omega arith), refl, refl, refl, refl))
