-- ===== src/Stream/Buffering.antt =====
-- The rounds of a stream reader's Read, and the buffer that it reads from (stream.go).
use go_wirenet.Base.{
  ℕ, zero, suc, ◌+◌, ◌≤◌, ◌<◌, ◌≡◌, refl, ap, ◌∙◌, Bool, true, false, not, ◌&&◌, some, none, Option,
  List, [], ◌∷◌, ◌++◌, arith, Bytes, length, take, drop, length-append, length-take, put_uint32,
  ltb, lt→ltb, ◌==◌, if◌then◌else◌,
}
use go_wirenet.Go.{Error, ok, eof}
use go_wirenet.Stream.Conn.{Conn}
use go_wirenet.Stream.Defs.{Stream, read_header}
use go_wirenet.Stream.Chunks.{chunked}
use go_wirenet.Stream.ReaderWriter.{
  StreamReader, contents, fill, after_header, after_fill, fill_until, take_out, buffer_read,
  reader_read,
}

module _ {S : Type 0} (c : Conn S) (fuel want : ℕ) (r : StreamReader) (hdr : Bytes) (x : S) where
  pub no_round :
      ltb (length (contents r.buf)) want && not r.eof ≡ false
      → fill_until c (suc fuel) want r hdr x ≡ (ok tt, r, hdr, x)
  unfolding fill_until
  no_round h = rw h refl

  pub a_round :
      length (contents r.buf) < want
      → r.eof ≡ false
      → fill_until c (suc fuel) want r hdr x
        ≡ after_fill c (λ r' hdr' x'. fill_until c fuel want r' hdr' x') (fill c fuel hdr r x)
  unfolding fill_until
  a_round h e = rw (lt→ltb (length (contents r.buf)) want h, e) refl

pub not-ltb : (a b : ℕ) → ltb a b ≡ false → b ≤ a
not-ltb a b h = ground arith

-- `buf.Read` into some room.
pub buffer_read_room :
    (want : ℕ) (b : Bytes)
    → 0 < want
    → buffer_read want b ≡ (take want b, if length b == 0 then some eof else none, drop want b)
buffer_read_room zero b pos = absurd (omega arith)
buffer_read_room (suc n) [] pos = ground arith
buffer_read_room (suc n) (y ∷ ys) pos = ground arith

pub end_known :
    (want : ℕ) (b : Bytes) (flag : Bool)
    → 0 < want
    → (if (length (take want b) == 0) && flag
        then some eof
        else if length b == 0
        then some eof
        else none)
      ≡ (if length b == 0 then some eof else none)
end_known want b flag pos = ground (arith, length-take want b)

pub both_some :
    (m n : ℕ)
    → 0 < m
    → 0 < n
    → (if m == 0 then some eof else none) ≡ (if n == 0 then some eof else none)
both_some m n h k = ground arith

pub none_after_end : (b over : Bool) → over ≡ true → b && not over ≡ false
none_after_end b over h = ground arith

-- There are fewer chunks than bytes.
pub count-chunked : (cs : List Bytes) → length cs + 1 < length (chunked cs)
unfolding put_uint32
count-chunked [] = omega arith
count-chunked (c ∷ cs) = omega (
  arith,
  count-chunked cs,
  length-append (put_uint32 (length c) ++ c) (chunked cs),
  length-append (put_uint32 (length c)) c,
)

pub reader_read_open :
    {S : Type 0} (c : Conn S) (fuel : ℕ) (s : Stream) (want : ℕ) (r : StreamReader) (x : S)
    → s.closed ≡ false
    → reader_read c fuel s want r x
      ≡ take_out c want (fill_until c fuel want (record r { buf = some (contents r.buf) }) s.hdr x)
unfolding reader_read
reader_read_open c fuel s want r x is_open = rw is_open refl

-- The end of `Read` with a buffer of `b`.
pub taken :
    {S : Type 0} (c : Conn S) (want : ℕ) (r : StreamReader) (hdr : Bytes) (x : S)
    → 0 < want
    → let b = contents r.buf in
      take_out c want (ok tt, r, hdr, x) ≡ (
        ok (take want b, if length b == 0 then some eof else none),
        record r { buf = some (drop want b) },
        hdr,
        x,
      )
taken c want r hdr x pos =
    let b : Bytes = contents r.buf in
    ap
      (λ (t : Bytes × Option Error × Bytes). (
        ok (t.0, if (length t.0 == 0) && r.eof then some eof else t.1),
        record r { buf = some t.2 },
        hdr,
        x,
      ))
      (buffer_read_room want b pos)
    ∙ ap
        (λ (o : Option Error). (ok (take want b, o), record r { buf = some (drop want b) }, hdr, x))
        (end_known want b r.eof pos)

pub fill_end :
    {S : Type 0} (c : Conn S) (fuel : ℕ) (r : StreamReader) (hdr hdr' : Bytes) (x x' : S)
    → read_header c.reader hdr x ≡ (0, some eof, hdr', x')
    → fill c fuel hdr r x ≡ ((ok (some eof), record r { eof = true }, x'), hdr')
unfolding fill
fill_end c fuel r hdr hdr' x x' h = ap (after_header c fuel r) h
