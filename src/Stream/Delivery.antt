-- ===== src/Stream/Delivery.antt =====
-- WriteTo on a stream whose chunks have arrived: the receiving half of a transfer.
use go_wirenet.Base.{
  ℕ, zero, suc, ◌+◌, ◌-◌, ◌^◌, ◌<◌, ◌≡◌, refl, sym, ap, ◌∙◌, false, some, none, List, [], ◌∷◌, ◌++◌,
  append_assoc, append-nil, arith, Bytes, length, take, patch, ==_iff, length-append, flatten,
  put_uint32, take_all,
}
use native.Mathlib.Nat.{le_refl}
use go_wirenet.Go.{ok, eof}
use go_wirenet.Io.{Reader, Writer, Delivers, IsWriter}
use go_wirenet.Stream.Conn.{Conn}
use go_wirenet.Stream.Defs.{Stream, buf_size, reset_buffers, read_header, read_loop}
use go_wirenet.Stream.Transfer.{write_all, deliver, write_to_loop, write_to, Moved}
use go_wirenet.Stream.Chunks.{
  chunk_bytes, chunked, AreChunks, word_value, read_header-word, read_header-end, read_chunk,
}

-- What a read does not change, `read(size)` does not change.
module _ {S : Type 0} (r : Reader S) (obs : S → Bytes)
    (same : (x : S) (n : ℕ) → obs (r.read x n).2 ≡ obs x) where
  obs-read_loop :
      (fuel offset n : ℕ) (buf : Bytes) (x : S) → obs (read_loop r fuel offset n buf x).2 ≡ obs x
  unfolding read_loop
  obs-read_loop zero offset n buf x = refl
  obs-read_loop (suc fuel) offset n buf x = ground (
    arith,
    same x (offset - n),
    obs-read_loop fuel offset (n + length (r.read x (offset - n)).0)
        (patch n (r.read x (offset - n)).0 buf) (r.read x (offset - n)).2,
  )

pub reset_ready : (s : Stream) → length s.buf ≡ buf_size → reset_buffers s ≡ s
unfolding reset_buffers
reset_ready s room = rw ((==_iff (length s.buf) buf_size).1 room)

-- A stream that is open, with buffers of the sizes that it was given.
pub record IsReady (limit : ℕ) (s : Stream) : Type 0 where
  pub is_open : s.closed ≡ false
  pub header : length s.hdr ≡ 4
  pub room : length s.buf ≡ limit

module _ {S : Type 0} (c : Conn S) (dst : Writer S) where
  -- A round of WriteTo that delivers a chunk, and the one that meets the end.
  chunk_round :
      (fuel n size : ℕ) (s : Stream) (x x1 x2 x3 : S) (hdr buf : Bytes) (n' : ℕ)
      → s.closed ≡ false
      → read_header c.reader s.hdr x ≡ (size, none, hdr, x1)
      → read_loop c.reader fuel size 0 s.buf x1 ≡ (ok (size, none), buf, x2)
      → deliver c dst fuel n size size buf x2 ≡ (ok (n', none), x3)
      → write_to_loop c dst (suc fuel) n s x
        ≡ write_to_loop c dst fuel n' (record s { hdr = hdr; buf = buf }) x3
  unfolding write_to_loop
  chunk_round fuel n size s x x1 x2 x3 hdr buf n' is_open h ran out = rw (h, ran, out, is_open)

  end_round :
      (fuel n : ℕ) (s : Stream) (x x1 : S) (hdr : Bytes)
      → s.closed ≡ false
      → read_header c.reader s.hdr x ≡ (0, some eof, hdr, x1)
      → write_to_loop c dst (suc fuel) n s x ≡ (ok (n, none), record s { hdr = hdr }, x1)
  unfolding write_to_loop
  end_round fuel n s x x1 hdr is_open h = rw (h, is_open)

  write_all-once :
      (fuel : ℕ) (p : Bytes) (x : S)
      → 0 < length p
      → (dst.write x p).1 ≡ none
      → (dst.write x p).0 ≡ length p
      → write_all c dst (suc (suc fuel)) p 0 x ≡ (ok (length p, none), (dst.write x p).2)
  unfolding write_all
  write_all-once fuel p x pos fine all = ground arith

  -- A writer that takes everything gets the chunk in one write.
  deliver-chunk :
      (fuel n : ℕ) (chunk buf : Bytes) (x : S)
      → 0 < length chunk
      → take (length chunk) buf ≡ chunk
      → 1 < fuel
      → (dst.write x chunk).1 ≡ none
      → (dst.write x chunk).0 ≡ length chunk
      → deliver c dst fuel n (length chunk) (length chunk) buf x
        ≡ (ok (n + length chunk, none), (dst.write x chunk).2)
  unfolding deliver
  deliver-chunk zero n chunk buf x pos front h fine all = absurd (omega arith)
  deliver-chunk (suc zero) n chunk buf x pos front h fine all = absurd (omega arith)
  deliver-chunk (suc (suc fuel)) n chunk buf x pos front h fine all =
      rw front (ground (arith, write_all-once fuel chunk x pos fine all))

module _ {S : Type 0} (c : Conn S) (dst : Writer S) {pending sent : S → Bytes}
    (law : Delivers c.reader pending) (takes : IsWriter dst sent)
    (fine : (x : S) (p : Bytes) → (dst.write x p).1 ≡ none)
    (reads_apart : (x : S) (n : ℕ) → sent (c.reader.read x n).2 ≡ sent x)
    (writes_apart : (x : S) (p : Bytes) → pending (dst.write x p).2 ≡ pending x) where
  -- WriteTo from `x` on, with `n` bytes moved so far: it moves `body` and leaves `rest`.
  abbrev pub Moves : ℕ → Bytes → Bytes → S → Moved S → Type 0
  Moves n body rest x g =
      (s' : Stream) × (x' : S) × (g ≡ (ok (n + length body, none), s', x'))
      × (sent x' ≡ sent x ++ body)
      × (pending x' ≡ rest)

  -- What the writer has taken after the round of the chunk `d`.
  sent-chunk :
      (x x2 : S) (d : Bytes) (fuel : ℕ) (buf : Bytes) (size : ℕ)
      → (read_loop c.reader fuel size 0 buf (c.reader.read x 4).2).2 ≡ x2
      → sent (dst.write x2 d).2 ≡ sent x ++ d
  sent-chunk x x2 d fuel buf size e =
      takes.takes x2 d
      ∙ ap (λ k. sent x2 ++ take k d) (takes.whole x2 d (fine x2 d))
      ∙ ap (◌++◌ (sent x2)) (take_all (length d) d (le_refl (length d)))
      ∙ ap (λ t. t ++ d)
          (sym (ap sent e)
            ∙ obs-read_loop c.reader sent reads_apart fuel size 0 buf (c.reader.read x 4).2
            ∙ reads_apart x 4)

  write_to_loop-Moves :
      (cs : List Bytes) (limit fuel n : ℕ) (rest : Bytes) (s : Stream) (x : S)
      → limit < 2 ^ 32
      → AreChunks limit cs
      → IsReady limit s
      → length cs + limit + 2 < fuel
      → pending x ≡ chunked cs ++ rest
      → Moves n (flatten cs) rest x (write_to_loop c dst fuel n s x)
  write_to_loop-Moves cs limit zero n rest s x small are ready h p = absurd (omega arith)
  write_to_loop-Moves [] limit (suc fuel) n rest s x small are ready h p =
      let (read, left) = read_header-end c.reader law rest s.hdr x ready.header p in
      let x1 : S = (c.reader.read x 4).2 in
      let s1 : Stream = record s { hdr = put_uint32 0 } in
      let same : n ≡ n + 0 = omega arith in
      (
        s1,
        x1,
        end_round c dst fuel n s x x1 (put_uint32 0) ready.is_open read
            ∙ ap (λ m. (ok (m, none), s1, x1)) same,
        reads_apart x 4 ∙ sym (append-nil (sent x)),
        left,
      )
  write_to_loop-Moves (d ∷ cs) limit (suc fuel) n rest s x small are ready h p =
      let more : Bytes = chunked cs ++ rest in
      let p' : pending x ≡ put_uint32 (length d) ++ (d ++ more) =
        p
        ∙ append_assoc (chunk_bytes d) (chunked cs) rest
        ∙ append_assoc (put_uint32 (length d)) d more in
      let (read, left) =
        read_header-word c.reader law (length d) (d ++ more) s.hdr x are.0 (omega (arith, are.1))
          ready.header p' in
      let x1 : S = (c.reader.read x 4).2 in
      let (buf, x2, ran, front, kept, left') =
        read_chunk c.reader law fuel d more s.buf x1 (omega (arith, ready.room, are.1))
          (omega (arith, are.1)) left in
      let x3 : S = (dst.write x2 d).2 in
      let out =
        deliver-chunk c dst fuel n d buf x2 are.0 front (omega arith) (fine x2 d)
          (takes.whole x2 d (fine x2 d)) in
      let s2 : Stream = record s { hdr = put_uint32 (length d); buf = buf } in
      let still : IsReady limit s2 = record {
        is_open = ready.is_open;
        header = (word_value (length d) (omega (arith, are.1))).1;
        room = kept ∙ ready.room;
      } in
      let (s', x', rest_ran, got, end) =
        write_to_loop-Moves cs limit fuel (n + length d) rest s2 x3 small are.2 still (omega arith)
          (writes_apart x2 d ∙ left') in
      let total : n + length d + length (flatten cs) ≡ n + length (d ++ flatten cs) =
        omega (arith, length-append d (flatten cs)) in
      (
        s',
        x',
        chunk_round c dst fuel n (length d) s x x1 x2 x3 (put_uint32 (length d)) buf (n + length d)
              ready.is_open read ran out
            ∙ rest_ran
            ∙ ap (λ m. (ok (m, none), s', x')) total,
        got
            ∙ ap (λ t. t ++ flatten cs)
                (sent-chunk x x2 d fuel s.buf (length d) (ap (λ g. g.2) ran))
            ∙ append_assoc (sent x) d (flatten cs),
        end,
      )

  -- WriteTo of an open stream on which chunks of 1 to 1024 bytes and the end marker have arrived, into
  -- a writer that takes everything with no error: it ends with no error, its count is the length of
  -- all chunks, the writer has got exactly their bytes in order, and what follows the end marker is
  -- not read.
  pub write_to-Moves :
      (cs : List Bytes) (fuel : ℕ) (rest : Bytes) (s : Stream) (x : S)
      → AreChunks buf_size cs
      → s.closed ≡ false
      → length s.hdr ≡ 4
      → length s.buf ≡ buf_size
      → length cs + buf_size + 2 < fuel
      → pending x ≡ chunked cs ++ rest
      → Moves 0 (flatten cs) rest x (write_to c dst fuel s x)
  unfolding write_to
  write_to-Moves cs fuel rest s x are is_open header room h p = rw (reset_ready s room) (
      write_to_loop-Moves cs buf_size fuel 0 rest s x (omega arith) are
        (record { is_open = is_open; header = header; room = room }) h p)
