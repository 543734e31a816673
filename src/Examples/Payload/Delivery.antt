-- ===== src/Examples/Payload/Delivery.antt =====
-- The payload in the client's buffer (examples/bytes).
use go_wirenet.Base.{ℕ, ◌+◌, ◌<◌, ◌≡◌, refl, ap, ◌∙◌, none, Option, [], ◌++◌, Bytes, length}
use go_wirenet.Go.{Error, ok}
use go_wirenet.Io.{Delivers, IsWriter}
use go_wirenet.Stream.Conn.{Conn}
use go_wirenet.Stream.Defs.{Stream, buf_size}
use go_wirenet.Stream.Chunks.{chunked}
use go_wirenet.Stream.Chunking.{read_from-Cuts}
use go_wirenet.Stream.Delivery.{IsReady}
use go_wirenet.Stream.Messages.{write_to-Takes}
use go_wirenet.Examples.Buffers.{
  bytes_reader, bytes_buffer, beside, beside-Delivers, beside-IsWriter, bytes_buffer-IsWriter,
  bytes_reader-Delivers, at_end,
}
use go_wirenet.Examples.Payload.Rounds.{
  printed_error, send_payload, close_and_print, after_write_to, read_payload,
}

close_and_print_ok :
    {S : Type 0} (c : Conn S) (fuel : ℕ) (close : S → Option Error × S) (x : S) (b : Bytes)
    → (close x).0 ≡ none
    → close_and_print c fuel close x b ≡ (ok b, (close x).1)
close_and_print_ok c fuel close x b h = rw (h, close_and_print) refl

module _ {S : Type 0} (c : Conn S) {sent : S → Bytes} (takes : IsWriter c.writer sent)
    (fine : (x : S) (p : Bytes) → (c.writer.write x p).1 ≡ none) {T : Type 0} (d : Conn T)
    {arrived : T → Bytes} (law : Delivers d.reader arrived) (close : T → Option Error × T)
    (closes : (y : T) → (close y).0 ≡ none) where
  -- The handler of the bytes server prints no error, and, once what it sent has arrived, a round of
  -- the client, whose stream closes with no error, ends with exactly the payload in its buffer,
  -- whatever the payload.
  pub read_payload-send_payload :
      (payload rest : Bytes) (fuel fuel' : ℕ) (s t : Stream) (x : S) (y : T)
      → length payload < fuel
      → length (arrived y) + buf_size + 2 < fuel'
      → IsReady buf_size s
      → IsReady buf_size t
      → ((out : Bytes)
          → sent (send_payload c fuel payload s x).1 ≡ sent x ++ out
          → arrived y ≡ out ++ rest)
      → ((send_payload c fuel payload s x).0 ≡ ok none)
        × ((read_payload d fuel' close t y).0 ≡ ok payload)
  unfolding send_payload read_payload
  read_payload-send_payload payload rest fuel fuel' s t x y h h' ready ready' carried =
      let (cs, s1, (x1, b1), are, flat, ran, out, _) =
        read_from-Cuts (beside c) bytes_reader bytes_reader-Delivers
          (beside-IsWriter c.writer takes) (λ z p. fine z.0 p) (λ z n e. ap at_end e) (λ z n. refl)
          (λ z p. refl) fuel payload s (x, payload) h ready.is_open ready.room refl in
      let ran' : send_payload c fuel payload s x ≡ (ok none, x1) = ap (printed_error c fuel) ran in
      let (t1, (y1, b), ran2, _, got, _) =
        write_to-Takes (beside d) bytes_buffer (beside-Delivers d.reader law) bytes_buffer-IsWriter
          (λ z p. refl) (λ z n. refl) (λ z p. refl) cs rest fuel' t (y, []) are ready' h'
          (carried (chunked cs) (ap (λ g. sent g.1) ran' ∙ out)) in
      (
        ap (λ g. g.0) ran',
        ap (λ g. g.0)
              (ap (after_write_to d fuel' close) ran2
                ∙ close_and_print_ok d fuel' close y1 b (closes y1))
            ∙ ap ok (got ∙ flat),
      )
