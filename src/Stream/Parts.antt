-- ===== src/Stream/Parts.antt =====
-- Messages that are written part by part: Writes of a stream's writer, and its Close (stream.go).
use go_wirenet.Base.{
  ℕ, ◌%◌, ◌^◌, ◌<◌, ◌≡◌, ap, ◌∙◌, false, none, List, [], ◌∷◌, ◌++◌, append_assoc, arith, Bytes,
  length, put_uint32,
}
use go_wirenet.Io.{IsWriter}
use go_wirenet.Stream.Conn.{Conn}
use go_wirenet.Stream.Defs.{Stream, write_word, write_hdr, write_eof}
use go_wirenet.Stream.Chunks.{chunk_bytes, chunked, AreChunks}
use go_wirenet.Stream.Chunking.{sent-write}
use go_wirenet.Stream.Boundaries.{writer_write_chunk}
use go_wirenet.Stream.ReaderWriter.{writer_write, writer_close}

module _ {S : Type 0} (c : Conn S) where
  -- Writes one after the other, with no look at what they return.
  abbrev pub write_each : Stream → List Bytes → S → S
  write_each s [] x = x
  write_each s (p ∷ ps) x = write_each s ps (writer_write c s p x).1

  -- The Writes of a part and its Close.
  abbrev pub write_part : Stream → List Bytes → S → S
  write_part s ps x = (writer_close c (write_each s ps x)).1

  module _ {sent : S → Bytes} (takes : IsWriter c.writer sent)
      (fine : (x : S) (p : Bytes) → (c.writer.write x p).1 ≡ none) (s : Stream)
      (is_open : s.closed ≡ false) where
    sent-writer_close : (x : S) → sent (writer_close c x).1 ≡ sent x ++ put_uint32 0
    unfolding writer_close write_eof write_word
    sent-writer_close x = sent-write c.writer takes fine x (put_uint32 0)

    -- What a part leaves on the wire: a chunk for each Write, and the end marker.
    pub sent-write_part :
        (limit : ℕ) (ps : List Bytes) (x : S)
        → limit < 2 ^ 32
        → AreChunks limit ps
        → sent (write_part s ps x) ≡ sent x ++ chunked ps
    sent-write_part limit [] x small are = sent-writer_close x
    sent-write_part limit (p ∷ ps) x small are =
        let (x', ran, out) = writer_write_chunk c takes fine s p x is_open (omega (arith, are.1)) in
        ap (λ (y : S). sent (write_part s ps y)) (ap (λ g. g.1) ran)
        ∙ sent-write_part limit ps x' small are.2
        ∙ ap (λ t. t ++ chunked ps) out
        ∙ append_assoc (sent x) (chunk_bytes p) (chunked ps)

-- What a connection's writes leave alone, a part leaves alone.
module _ {S : Type 0} (c : Conn S) (obs : S → Bytes)
    (same : (x : S) (p : Bytes) → obs (c.writer.write x p).2 ≡ obs x) (s : Stream) where
  obs-writer_write : (p : Bytes) (x : S) → obs (writer_write c s p x).1 ≡ obs x
  unfolding writer_write write_hdr write_word
  obs-writer_write p x = ground (
    arith,
    same x (put_uint32 (length p % 2 ^ 32)),
    same (c.writer.write x (put_uint32 (length p % 2 ^ 32))).2 p,
  )

  pub obs-write_part : (ps : List Bytes) (x : S) → obs (write_part c s ps x) ≡ obs x
  unfolding writer_close write_eof write_word
  obs-write_part [] x = same x (put_uint32 0)
  obs-write_part (p ∷ ps) x = obs-write_part ps (writer_write c s p x).1 ∙ obs-writer_write p x
