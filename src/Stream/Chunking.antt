-- ===== src/Stream/Chunking.antt =====
-- ReadFrom on a source that ends: the sending half of a transfer.
use go_wirenet.Base.{
  ℕ, zero, suc, ◌+◌, ◌%◌, ◌^◌, ◌<◌, ◌≤◌, ◌≡◌, ◌≢◌, refl, sym, ap, ◌∙◌, false, some, none, List, [],
  ◌∷◌, ◌++◌, append_assoc, arith, Bytes, length, take, drop, patch, length-append, flatten,
  length-patch, put_uint32, take_all, take-append, nil_of_length,
}
use native.Mathlib.Nat.{le_refl}
use go_wirenet.Go.{ok, eof}
use go_wirenet.Io.{Writer, Reader, Delivers, IsWriter}
use go_wirenet.Stream.Conn.{Conn}
use go_wirenet.Stream.Defs.{Stream, buf_size, write_word, write_hdr, write_eof}
use go_wirenet.Stream.Transfer.{end_of_source, send_chunk, read_from_loop, read_from, Moved}
use go_wirenet.Stream.Chunks.{chunk_bytes, chunked, AreChunks}
use go_wirenet.Stream.Delivery.{reset_ready}

pub mod_small : (n : ℕ) → n < 2 ^ 32 → n % 2 ^ 32 ≡ n
mod_small n h = omega arith

-- What a writer that takes everything has got after a write.
module _ {S : Type 0} (w : Writer S) {sent : S → Bytes} (takes : IsWriter w sent)
    (fine : (x : S) (p : Bytes) → (w.write x p).1 ≡ none) where
  pub sent-write : (x : S) (p : Bytes) → sent (w.write x p).2 ≡ sent x ++ p
  sent-write x p =
      takes.takes x p
      ∙ ap (λ k. sent x ++ take k p) (takes.whole x p (fine x p))
      ∙ ap (◌++◌ (sent x)) (take_all (length p) p (le_refl (length p)))

module _ {S : Type 0} (c : Conn S) (src : Reader S) where
  -- The stream after a read of `bytes`.
  abbrev filled : Stream → Bytes → Stream
  filled s bytes = record s { buf = patch 0 bytes s.buf }

  sending_round :
      (fuel n : ℕ) (s : Stream) (x : S)
      → s.closed ≡ false
      → (src.read x (length s.buf)).1 ≡ none
      → let bytes = (src.read x (length s.buf)).0 in
        let s1 = filled s bytes in
        read_from_loop c src (suc fuel) n s x
        ≡ send_chunk c src
            (λ n' x'. read_from_loop c src fuel n' s1 x')
            n
            (length bytes)
            s1
            (src.read x (length s.buf)).2
  unfolding read_from_loop
  sending_round fuel n s x is_open fine = ground arith

  pub ending_round :
      (fuel n : ℕ) (s : Stream) (x : S)
      → s.closed ≡ false
      → (src.read x (length s.buf)).1 ≡ some eof
      → (c.writer.write (src.read x (length s.buf)).2 (put_uint32 0)).1 ≡ none
      → read_from_loop c src (suc fuel) n s x ≡ (
        ok (n, none),
        filled s (src.read x (length s.buf)).0,
        (c.writer.write (src.read x (length s.buf)).2 (put_uint32 0)).2,
      )
  unfolding read_from_loop end_of_source write_eof write_word
  ending_round fuel n s x is_open done fine = ground arith

  -- A chunk that is written whole behind its length.
  send_chunk-whole :
      (loop : ℕ → S → Moved S) (n nr : ℕ) (s : Stream) (x : S) (word d : Bytes)
      → 0 < nr
      → take nr s.buf ≡ d
      → put_uint32 (nr % 2 ^ 32) ≡ word
      → (c.writer.write x word).1 ≡ none
      → (c.writer.write (c.writer.write x word).2 d).1 ≡ none
      → (c.writer.write (c.writer.write x word).2 d).0 ≡ nr
      → send_chunk c src loop n nr s x
        ≡ loop (n + nr) (c.writer.write (c.writer.write x word).2 d).2
  unfolding send_chunk write_hdr write_word
  send_chunk-whole loop n nr s x word d pos front is_word fine1 fine2 all = ground arith

module _ {S : Type 0} (c : Conn S) (src : Reader S) {pending sent : S → Bytes}
    (law : Delivers src pending) (takes : IsWriter c.writer sent)
    (fine : (x : S) (p : Bytes) → (c.writer.write x p).1 ≡ none)
    (ends : (x : S) (n : ℕ) → pending x ≡ [] → (src.read x n).1 ≡ some eof)
    (reads_apart : (x : S) (n : ℕ) → sent (src.read x n).2 ≡ sent x)
    (writes_apart : (x : S) (p : Bytes) → pending (c.writer.write x p).2 ≡ pending x) where
  -- ReadFrom from `x` on, with `n` bytes moved so far: it has read all of `body`, and has written
  -- it cut into chunks, and the end marker.
  abbrev pub Cuts : ℕ → ℕ → Bytes → S → Moved S → Type 0
  Cuts limit n body x g =
      (cs : List Bytes) × (s' : Stream) × (x' : S) × AreChunks limit cs
      × (flatten cs ≡ body)
      × (g ≡ (ok (n + length body, none), s', x'))
      × (sent x' ≡ sent x ++ chunked cs)
      × (pending x' ≡ [])

  read_from_loop-Cuts :
      (limit fuel n : ℕ) (body : Bytes) (s : Stream) (x : S)
      → 0 < limit
      → limit < 2 ^ 32
      → length body < fuel
      → s.closed ≡ false
      → length s.buf ≡ limit
      → pending x ≡ body
      → Cuts limit n body x (read_from_loop c src fuel n s x)
  read_from_loop-Cuts limit zero n body s x pos small h is_open room p = absurd (omega arith)
  read_from_loop-Cuts limit (suc fuel) n [] s x pos small h is_open room p =
      let x1 : S = (src.read x (length s.buf)).2 in
      let bytes : Bytes = (src.read x (length s.buf)).0 in
      let x2 : S = (c.writer.write x1 (put_uint32 0)).2 in
      let nothing : pending x1 ≡ [] = nil_of_length (pending x1) (
        omega
          (arith, length-append bytes (pending x1), ap length (law.front x (length s.buf) ∙ p))) in
      let s1 : Stream = filled c src s bytes in
      let same : n ≡ n + 0 = omega arith in
      (
        [],
        s1,
        x2,
        tt,
        refl,
        ending_round c src fuel n s x is_open (ends x (length s.buf) p) (fine x1 (put_uint32 0))
            ∙ ap (λ m. (ok (m, none), s1, x2)) same,
        sent-write c.writer takes fine x1 (put_uint32 0)
            ∙ ap (λ t. t ++ put_uint32 0) (reads_apart x (length s.buf)),
        writes_apart x1 (put_uint32 0) ∙ nothing,
      )
  read_from_loop-Cuts limit (suc fuel) n (y ∷ ys) s x pos small h is_open room p =
      let x1 : S = (src.read x (length s.buf)).2 in
      let d : Bytes = (src.read x (length s.buf)).0 in
      let word : Bytes = put_uint32 (length d) in
      let x2 : S = (c.writer.write x1 word).2 in
      let x3 : S = (c.writer.write x2 d).2 in
      let s1 : Stream = filled c src s d in
      let waiting : pending x ≢ [] = λ e. cc in
      let within : length d ≤ length s.buf = law.within x (length s.buf) in
      let d_pos : 0 < length d = law.some_bytes x (length s.buf) (omega arith) waiting in
      let cut : d ++ pending x1 ≡ y ∷ ys = law.front x (length s.buf) ∙ p in
      let total : length d + length (pending x1) ≡ length (y ∷ ys) =
        sym (length-append d (pending x1)) ∙ ap length cut in
      let (cs, s', x', are, flat, ran, out, end) =
        read_from_loop-Cuts limit fuel (n + length d) (pending x1) s1 x3 pos small (omega arith)
          is_open (length-patch 0 d s.buf (omega arith) ∙ room)
          (writes_apart x2 d ∙ writes_apart x1 word) in
      let count : n + length d + length (pending x1) ≡ n + length (y ∷ ys) = omega arith in
      (
        d ∷ cs,
        s',
        x',
        (d_pos, omega arith, are),
        ap (◌++◌ d) flat ∙ cut,
        sending_round c src fuel n s x is_open (law.no_error x (length s.buf) waiting)
            ∙ send_chunk-whole c src (λ n' x'. read_from_loop c src fuel n' s1 x') n (length d) s1
                x1 word d d_pos (take-append (length d) d (drop (0 + length d) s.buf) refl)
                (ap put_uint32 (mod_small (length d) (omega arith))) (fine x1 word) (fine x2 d)
                (takes.whole x2 d (fine x2 d))
            ∙ ran
            ∙ ap (λ m. (ok (m, none), s', x')) count,
        out
            ∙ ap (λ t. t ++ chunked cs)
                (sent-write c.writer takes fine x2 d
                  ∙ ap (λ t. t ++ d)
                      (sent-write c.writer takes fine x1 word
                        ∙ ap (λ t. t ++ word) (reads_apart x (length s.buf)))
                  ∙ append_assoc (sent x) word d)
            ∙ append_assoc (sent x) (chunk_bytes d) (chunked cs),
        end,
      )

  -- ReadFrom of an open stream, over a connection that takes every write and from a source whose
  -- reads give bytes with no error, and io.EOF only once nothing is left, ends with no error and the
  -- number of the source's bytes as its count; it has written those bytes in order, cut into chunks
  -- of 1 to 1024 bytes, each behind its length, and the end marker.
  pub read_from-Cuts :
      (fuel : ℕ) (body : Bytes) (s : Stream) (x : S)
      → length body < fuel
      → s.closed ≡ false
      → length s.buf ≡ buf_size
      → pending x ≡ body
      → Cuts buf_size 0 body x (read_from c src fuel s x)
  unfolding read_from
  read_from-Cuts fuel body s x h is_open room p =
      rw (reset_ready s room)
        (read_from_loop-Cuts buf_size fuel 0 body s x (omega arith) (omega arith) h is_open room p)
