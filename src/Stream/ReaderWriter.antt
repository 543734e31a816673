-- ===== src/Stream/ReaderWriter.antt =====
-- The writer and the reader that a stream hands out (stream.go).
use go_wirenet.Base.{
  ℕ, zero, suc, ◌+◌, Bool, true, false, not, ◌&&◌, Option, none, some, [], ◌++◌, Bytes, length,
  take, drop, patch, replicate, ltb, ◌==◌, if◌then◌else◌,
}
use go_wirenet.Go.{Error, short_buffer, stream_closed, is_eof, Go, ok, err, panic, stuck}
use go_wirenet.Stream.Conn.{Conn}
use go_wirenet.Stream.Defs.{Stream, read_header, write_hdr, write_eof}

-- `reader`: the bytes of chunks that were read and not taken yet (nil at first), and the end flag.
pub record StreamReader : Type 0 where
  pub buf : Option Bytes
  pub eof : Bool

abbrev pub new_reader : StreamReader
new_reader = record { buf = none; eof = false }

-- `Close` of the reader: the buffer is emptied and the end forgotten.
unfoldable pub reader_close : StreamReader → StreamReader
reader_close r = record { buf = elim r.buf [ none ↦ none | some b ↦ some [] ]; eof = false }

-- `bytes.Buffer.Read` into `n` bytes: what it returns, its error, and the buffer.
abbrev pub buffer_read : ℕ → Bytes → Bytes × Option Error × Bytes
buffer_read n [] = ([], if n == 0 then none else some Error.eof, [])
buffer_read n b = (take n b, none, drop n b)

abbrev pub contents : Option Bytes → Bytes
contents none = []
contents (some b) = b

module _ {S : Type 0} (c : Conn S) where
  -- `writer.Write`
  unfoldable pub writer_write : Stream → Bytes → S → (ℕ × Option Error) × S
  writer_write s p x =
      let (e, x1) = write_hdr c.writer (length p) x in
      let (nw, ew, x2) = c.writer.write x1 p in
      if s.closed && c.sess_closed x
      then ((0, some stream_closed), x)
      else elim e [ some we ↦ ((0, some we), x1) | none ↦ ((nw, ew), x2) ]

  -- `writer.Close`
  unfoldable pub writer_close : S → Option Error × S
  writer_close = write_eof c.writer

  -- `reader.read(p)` from `n` on. Each read goes to the start of `p`, with room for all of it.
  unfoldable pub fill_loop : ℕ → ℕ → Bytes → S → Go (ℕ × Option Error) × Bytes × S
  fill_loop zero n p x = (stuck, p, x)
  fill_loop (suc fuel) n p x =
      let (bytes, re, x') = c.reader.read x (length p) in
      let n' = n + length bytes in
      let p' = patch 0 bytes p in
      let rest = fill_loop fuel n' p' x' in
      if ltb n (length p)
      then elim re [
        | some e ↦ if is_eof e then (ok (n, some Error.eof), p', x') else (ok (0, some e), p', x')
        | none ↦ if n' == length p then (ok (n', none), p', x') else rest
      ]
      else (ok (n, none), p, x)

  abbrev pub filled :
      ℕ → StreamReader → Go (ℕ × Option Error) × Bytes × S → Go (Option Error) × StreamReader × S
  filled off r (ok (n, some e), b, x) = (ok (some e), r, x)
  filled off r (ok (n, none), b, x) =
      if n == off
      then (ok none, record r { buf = some (contents r.buf ++ b) }, x)
      else (ok (some short_buffer), r, x)
  filled off r (err e, b, x) = (err e, r, x)
  filled off r (panic, b, x) = (panic, r, x)
  filled off r (stuck, b, x) = (stuck, r, x)

  -- The results of `readHeader`: an error ends `fill`.
  abbrev pub after_header :
      ℕ
      → StreamReader
      → ℕ × Option Error × Bytes × S
      → (Go (Option Error) × StreamReader × S) × Bytes
  after_header fuel r (off, some e, hdr, x) =
      ((ok (some e), if is_eof e then record r { eof = true } else r, x), hdr)
  after_header fuel r (off, none, hdr, x) =
      (filled off r (fill_loop fuel 0 (replicate off 0) x), hdr)

  -- `fill`: one chunk into the reader's buffer. The stream's `hdr` comes back too.
  unfoldable pub fill :
      ℕ → Bytes → StreamReader → S → (Go (Option Error) × StreamReader × S) × Bytes
  unfolding fill_loop
  fill fuel hdr r x = after_header fuel r (read_header c.reader hdr x)

  -- After a `fill`: an error ends the filling.
  abbrev pub after_fill :
      (StreamReader → Bytes → S → Go (Unit {0}) × StreamReader × Bytes × S)
      → (Go (Option Error) × StreamReader × S) × Bytes
      → Go (Unit {0}) × StreamReader × Bytes × S
  after_fill loop ((ok none, r, x), hdr) = loop r hdr x
  after_fill loop ((ok (some e), r, x), hdr) = (ok tt, r, hdr, x)
  after_fill loop ((err e, r, x), hdr) = (err e, r, hdr, x)
  after_fill loop ((panic, r, x), hdr) = (panic, r, hdr, x)
  after_fill loop ((stuck, r, x), hdr) = (stuck, r, hdr, x)

  -- `for total < len(p) && !r.eof { … }`
  unfoldable pub fill_until :
      ℕ → ℕ → StreamReader → Bytes → S → Go (Unit {0}) × StreamReader × Bytes × S
  unfolding fill
  fill_until zero want r hdr x = (stuck, r, hdr, x)
  fill_until (suc fuel) want r hdr x =
      let loop = λ (r' : StreamReader) (hdr' : Bytes) (x' : S). fill_until fuel want r' hdr' x' in
      if ltb (length (contents r.buf)) want && not r.eof
      then after_fill loop (fill fuel hdr r x)
      else (ok tt, r, hdr, x)

  -- `n == 0 && r.eof` is the end.
  abbrev pub take_out :
      ℕ
      → Go (Unit {0}) × StreamReader × Bytes × S
      → Go (Bytes × Option Error) × StreamReader × Bytes × S
  take_out want (ok _, r, hdr, x) =
      let (got, e, left) = buffer_read want (contents r.buf) in
      (
        ok (got, if (length got == 0) && r.eof then some Error.eof else e),
        record r { buf = some left },
        hdr,
        x,
      )
  take_out want (err e, r, hdr, x) = (err e, r, hdr, x)
  take_out want (panic, r, hdr, x) = (panic, r, hdr, x)
  take_out want (stuck, r, hdr, x) = (stuck, r, hdr, x)

  -- `reader.Read(p)` with `want` for `len(p)`: what it puts into `p`, and its error.
  unfoldable pub reader_read :
      ℕ → Stream → ℕ → StreamReader → S → Go (Bytes × Option Error) × StreamReader × Bytes × S
  unfolding fill_until
  reader_read fuel s want r x =
      if s.closed && c.sess_closed x
      then (ok ([], some stream_closed), r, s.hdr, x)
      else take_out want (fill_until fuel want (record r { buf = some (contents r.buf) }) s.hdr x)
