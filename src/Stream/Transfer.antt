-- ===== src/Stream/Transfer.antt =====
-- ReadFrom and WriteTo (stream.go): a stream as a sequence of chunks, each behind its length,
-- that ends with the word 0. Both hold the stream's lock, so its `closed` does not change under them.
use go_wirenet.Base.{
  ℕ, zero, suc, ◌+◌, Bool, false, ◌&&◌, Option, none, some, Bytes, length, take, patch, ltb, ◌==◌,
  if◌then◌else◌, ◌||◌,
}
use go_wirenet.Go.{
  Error, short_write, stream_closed, is_eof, Go, ok, err, panic, stuck, M, pure, ◌>>=◌,
}
use go_wirenet.Io.{Reader, Writer}
use go_wirenet.Stream.Conn.{Conn}
use go_wirenet.Stream.Defs.{Stream, reset_buffers, read_header, read_loop, write_hdr, write_eof}

-- A transfer's results: `n` and `err`.
abbrev pub Moved : Type 0 → Type 0
Moved S = Go (ℕ × Option Error) × Stream × S

abbrev pub header_is_eof : Option Error → Bool
header_is_eof none = false
header_is_eof (some e) = is_eof e

module _ {S : Type 0} (c : Conn S) (dst : Writer S) where
  -- `for wt < pl { nw, ew := w.Write(p); … }`: always the whole of `p`; an error ends it.
  unfoldable pub write_all : ℕ → Bytes → ℕ → S → Go (ℕ × Option Error) × S
  write_all zero p wt s = (stuck, s)
  write_all (suc fuel) p wt s =
      let (nw, ew, s') = dst.write s p in
      let rest = write_all fuel p (wt + nw) s' in
      if ltb wt (length p)
      then elim ew [ some e ↦ (ok (wt + nw, some e), s') | none ↦ rest ]
      else (ok (wt, none), s)

  -- A short write replaces the writer's own error.
  abbrev pub chunk_error : ℕ → ℕ → Option Error → Option Error
  chunk_error rn wt e = if rn == wt then e else some short_write

  -- One chunk that was read, of `size` bytes in front of `buf`: the new `n`, and the error that
  -- stops the loop.
  unfoldable pub deliver : ℕ → ℕ → ℕ → ℕ → Bytes → M S (ℕ × Option Error)
  unfolding write_all
  deliver fuel n size rn buf =
      if ltb 0 rn
      then (do (wt, ew) ← write_all fuel (take size buf) 0; pure (n + wt, chunk_error rn wt ew))
      else pure (n, none)

  -- The end of a round of WriteTo: an error stops it.
  abbrev pub next_chunk : (ℕ → S → Moved S) → Stream → Go (ℕ × Option Error) × S → Moved S
  next_chunk loop s (ok (n, none), x) = loop n x
  next_chunk loop s (ok (n, some e), x) = (ok (n, some e), s, x)
  next_chunk loop s (err e, x) = (err e, s, x)
  next_chunk loop s (panic, x) = (panic, s, x)
  next_chunk loop s (stuck, x) = (stuck, s, x)

  -- The results of `read(size)`: an error stops WriteTo.
  abbrev pub after_read :
      (ℕ → Stream → S → Moved S) → Stream → ℕ → Go (ℕ × Option Error) × Bytes × S → Moved S
  after_read go s n (ok (rn, none), buf, x) = go rn (record s { buf = buf }) x
  after_read go s n (ok (rn, some e), buf, x) = (ok (n, some e), record s { buf = buf }, x)
  after_read go s n (err e, buf, x) = (err e, record s { buf = buf }, x)
  after_read go s n (panic, buf, x) = (panic, record s { buf = buf }, x)
  after_read go s n (stuck, buf, x) = (stuck, record s { buf = buf }, x)

  -- The loop of WriteTo. `fuel` bounds its rounds, and those of each loop within.
  unfoldable pub write_to_loop : ℕ → ℕ → Stream → S → Moved S
  unfolding deliver
  write_to_loop zero n s x = (stuck, s, x)
  write_to_loop (suc fuel) n s x =
      let (size, erh, hdr, x1) = read_header c.reader s.hdr x in
      let s1 = record s { hdr = hdr } in
      let loop = λ (s2 : Stream) (n' : ℕ) (x' : S). write_to_loop fuel n' s2 x' in
      if s.closed && c.sess_closed x
      then (ok (0, some stream_closed), s, x)
      else if header_is_eof erh
      then (ok (n, none), s1, x1)
      else after_read (λ rn s2 x2. next_chunk (loop s2) s2 (deliver fuel n size rn s2.buf x2)) s1 n
          (read_loop c.reader fuel size 0 s1.buf x1)

  unfoldable pub write_to : ℕ → Stream → S → Moved S
  unfolding write_to_loop reset_buffers
  write_to fuel s x = write_to_loop fuel 0 (reset_buffers s) x

module _ {S : Type 0} (c : Conn S) (src : Reader S) where
  -- A read that failed ends ReadFrom: with io.EOF or with no bytes the end marker is written, and
  -- the source's error is dropped.
  unfoldable pub end_of_source : ℕ → ℕ → Error → Stream → S → Moved S
  end_of_source n nr er s x =
      let (e, x') = write_eof c.writer x in
      if is_eof er || (nr == 0) then (ok (n, e), s, x') else (ok (n, none), s, x)

  -- The write of `nr` bytes behind their header.
  unfoldable pub send_chunk : (ℕ → S → Moved S) → ℕ → ℕ → Stream → S → Moved S
  send_chunk loop n nr s x =
      let (e, x1) = write_hdr c.writer nr x in
      let (nw, ew, x2) = c.writer.write x1 (take nr s.buf) in
      elim e [
        | some we ↦ (ok (0, some we), s, x1)
        | none ↦
            if ltb 0 nr
            then elim ew [
              | some we ↦ (ok (n + nw, some we), s, x2)
              | none ↦ if nw == nr then loop (n + nw) x2 else (ok (n + nw, some short_write), s, x2)
            ]
            else loop n x1
      ]

  unfoldable pub read_from_loop : ℕ → ℕ → Stream → S → Moved S
  unfolding end_of_source send_chunk
  read_from_loop zero n s x = (stuck, s, x)
  read_from_loop (suc fuel) n s x =
      let (bytes, er, x1) = src.read x (length s.buf) in
      let s1 = record s { buf = patch 0 bytes s.buf } in
      let loop = λ (n' : ℕ) (x' : S). read_from_loop fuel n' s1 x' in
      if s.closed && c.sess_closed x then (ok (0, some stream_closed), s, x) else elim er [
        | some e ↦ end_of_source n (length bytes) e s1 x1
        | none ↦ send_chunk loop n (length bytes) s1 x1
      ]

  unfoldable pub read_from : ℕ → Stream → S → Moved S
  unfolding read_from_loop reset_buffers
  read_from fuel s x = read_from_loop fuel 0 (reset_buffers s) x
