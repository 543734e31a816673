-- ===== src/Stream/Keeping.antt =====
-- What the reads of a stream's reader keep (stream.go), on every branch.
use go_wirenet.Base.{
  ℕ, zero, suc, ◌+◌, ◌≡◌, ◌∙◌, Bool, true, false, not, ◌&&◌, Option, some, none, arith, Bytes, [],
  ◌++◌, length, patch, replicate, length-patch, ltb, if◌then◌else◌, ◌==◌,
}
use go_wirenet.Go.{Error, Go, ok, err, panic, stuck, is_eof, eof, short_buffer, stream_closed}
use go_wirenet.Io.{Reader, IsReader}
use go_wirenet.Stream.Conn.{Conn}
use go_wirenet.Stream.Defs.{Stream, read_header}
use go_wirenet.Stream.ReaderWriter.{
  StreamReader, contents, fill_loop, filled, after_header, fill, after_fill, fill_until, take_out,
  reader_read,
}

-- A predicate on a stream's header buffer and the world that every read keeps.
pub record Keeps {S : Type 0} (r : Reader S) (P : Bytes → S → Type 0) : Type 0 where
  pub by_header : (hdr : Bytes) (x : S) → P hdr x → P (patch 0 (r.read x 4).0 hdr) (r.read x 4).2
  pub by_read : (hdr : Bytes) (x : S) (n : ℕ) → P hdr x → P hdr (r.read x n).2

read_header-hdr :
    {S : Type 0} (r : Reader S) (hdr : Bytes) (x : S)
    → ((read_header r hdr x).2 ≡ patch 0 (r.read x 4).0 hdr)
      × ((read_header r hdr x).3 ≡ (r.read x 4).2)
unfolding read_header
read_header-hdr r hdr x = (ground arith, ground arith)

module _ {S : Type 0} (c : Conn S) (P : Bytes → S → Type 0) (law : Keeps c.reader P) where
  if-Keeps :
      {A B : Type 0} (hdr : Bytes) (b : Bool) (u v : A × B × S)
      → P hdr u.2
      → P hdr v.2
      → P hdr (if b then u else v).2
  if-Keeps hdr true u v h k = h
  if-Keeps hdr false u v h k = k

  fill_loop-Keeps :
      (hdr : Bytes) (fuel n : ℕ) (p : Bytes) (x : S) → P hdr x → P hdr (fill_loop c fuel n p x).2
  unfolding fill_loop
  fill_loop-Keeps hdr zero n p x h = h
  fill_loop-Keeps hdr (suc fuel) n p x h =
      let (bytes, re, x') = c.reader.read x (length p) in
      let p' : Bytes = patch 0 bytes p in
      let n' : ℕ = n + length bytes in
      let h' : P hdr x' = law.by_read hdr x (length p) h in
      if-Keeps hdr (ltb n (length p))
        (elim re [
          | some e ↦ if is_eof e then (ok (n, some eof), p', x') else (ok (0, some e), p', x')
          | none ↦ if n' == length p then (ok (n', none), p', x') else fill_loop c fuel n' p' x'
        ])
        (ok (n, none), p, x)
        (elim re
          as (λ re.
            P hdr
              (elim re as (λ _. Go (ℕ × Option Error) × Bytes × S) [
                | some e ↦ if is_eof e then (ok (n, some eof), p', x') else (ok (0, some e), p', x')
                | none ↦
                    if n' == length p then (ok (n', none), p', x') else fill_loop c fuel n' p' x'
              ]).2) [
                | some e ↦
                    if-Keeps hdr (is_eof e) (ok (n, some eof), p', x') (ok (0, some e), p', x') h'
                      h'
                | none ↦
                    if-Keeps hdr (n' == length p) (ok (n', none), p', x')
                      (fill_loop c fuel n' p' x') h' (fill_loop-Keeps hdr fuel n' p' x' h')
              ])
        h

  filled-Keeps :
      (hdr : Bytes) (off : ℕ) (r : StreamReader) (g : Go (ℕ × Option Error) × Bytes × S)
      → P hdr g.2
      → P hdr (filled c off r g).2
  filled-Keeps hdr off r (ok (n, some e), b, x) h = h
  filled-Keeps hdr off r (ok (n, none), b, x) h =
      if-Keeps hdr (n == off) (ok none, record r { buf = some (contents r.buf ++ b) }, x)
        (ok (some short_buffer), r, x) h h
  filled-Keeps hdr off r (err e, b, x) h = h
  filled-Keeps hdr off r (panic, b, x) h = h
  filled-Keeps hdr off r (stuck, b, x) h = h

  after_header-Keeps :
      (fuel : ℕ) (r : StreamReader) (g : ℕ × Option Error × Bytes × S)
      → P g.2 g.3
      → P (after_header c fuel r g).1 (after_header c fuel r g).0.2
  after_header-Keeps fuel r (off, some e, hdr, x) h = h
  after_header-Keeps fuel r (off, none, hdr, x) h =
      filled-Keeps hdr off r (fill_loop c fuel 0 (replicate off 0) x)
        (fill_loop-Keeps hdr fuel 0 (replicate off 0) x h)

  fill-Keeps :
      (fuel : ℕ) (hdr : Bytes) (r : StreamReader) (x : S)
      → P hdr x
      → P (fill c fuel hdr r x).1 (fill c fuel hdr r x).0.2
  unfolding fill
  fill-Keeps fuel hdr r x h =
      let (same_hdr, same_x) = read_header-hdr c.reader hdr x in
      after_header-Keeps fuel r (read_header c.reader hdr x)
        (rw (same_hdr, same_x) (law.by_header hdr x h))

  after_fill-Keeps :
      (loop : StreamReader → Bytes → S → Go (Unit {0}) × StreamReader × Bytes × S)
      (g : (Go (Option Error) × StreamReader × S) × Bytes)
      → P g.1 g.0.2
      → ((r : StreamReader) (hdr : Bytes) (x : S) → P hdr x → P (loop r hdr x).2 (loop r hdr x).3)
      → P (after_fill c loop g).2 (after_fill c loop g).3
  after_fill-Keeps loop ((ok none, r, x), hdr) h k = k r hdr x h
  after_fill-Keeps loop ((ok (some e), r, x), hdr) h k = h
  after_fill-Keeps loop ((err e, r, x), hdr) h k = h
  after_fill-Keeps loop ((panic, r, x), hdr) h k = h
  after_fill-Keeps loop ((stuck, r, x), hdr) h k = h

  if_both-Keeps :
      {A B : Type 0} (b : Bool) (u v : A × B × Bytes × S)
      → P u.2 u.3
      → P v.2 v.3
      → P (if b then u else v).2 (if b then u else v).3
  if_both-Keeps true u v h k = h
  if_both-Keeps false u v h k = k

  fill_until-Keeps :
      (fuel want : ℕ) (r : StreamReader) (hdr : Bytes) (x : S)
      → P hdr x
      → P (fill_until c fuel want r hdr x).2 (fill_until c fuel want r hdr x).3
  unfolding fill_until
  fill_until-Keeps zero want r hdr x h = h
  fill_until-Keeps (suc fuel) want r hdr x h =
      let loop = λ (r' : StreamReader) (hdr' : Bytes) (x' : S). fill_until c fuel want r' hdr' x' in
      if_both-Keeps (ltb (length (contents r.buf)) want && not r.eof)
        (after_fill c loop (fill c fuel hdr r x)) (ok tt, r, hdr, x)
        (after_fill-Keeps loop (fill c fuel hdr r x) (fill-Keeps fuel hdr r x h)
          (λ r' hdr' x' h'. fill_until-Keeps fuel want r' hdr' x' h'))
        h

  take_out-Keeps :
      (want : ℕ) (g : Go (Unit {0}) × StreamReader × Bytes × S)
      → P g.2 g.3
      → P (take_out c want g).2 (take_out c want g).3
  take_out-Keeps want (ok _, r, hdr, x) h = h
  take_out-Keeps want (err e, r, hdr, x) h = h
  take_out-Keeps want (panic, r, hdr, x) h = h
  take_out-Keeps want (stuck, r, hdr, x) h = h

  -- What each read of a connection keeps, a Read of a stream's reader keeps, however it ends.
  pub reader_read-Keeps :
      (fuel want : ℕ) (s : Stream) (r : StreamReader) (x : S)
      → P s.hdr x
      → P (reader_read c fuel s want r x).2 (reader_read c fuel s want r x).3
  unfolding reader_read
  reader_read-Keeps fuel want s r x h =
      let r0 : StreamReader = record r { buf = some (contents r.buf) } in
      if_both-Keeps (s.closed && c.sess_closed x) (ok ([], some stream_closed), r, s.hdr, x)
        (take_out c want (fill_until c fuel want r0 s.hdr x)) h
        (take_out-Keeps want (fill_until c fuel want r0 s.hdr x)
          (fill_until-Keeps fuel want r0 s.hdr x h))

-- The header buffer keeps its length.
pub header-Keeps : {S : Type 0} (r : Reader S) → IsReader r → Keeps r (λ hdr _. length hdr ≡ 4)
header-Keeps r law = record {
  by_header = λ hdr x h. length-patch 0 (r.read x 4).0 hdr (omega (arith, law.within x 4, h)) ∙ h;
  by_read = λ hdr x n h. h;
}
