-- ===== src/Stream/Last.antt =====
-- A Read of a stream's reader that asks for more than is left (stream.go).
use go_wirenet.Base.{
  ℕ, ◌^◌, ◌≤◌, ◌<◌, ◌≡◌, ap, ◌∙◌, true, false, Option, some, none, inl, inr, arith, Bytes, [],
  length, drop, length-append, if◌then◌else◌, ◌==◌, take_all, drop_all, flatten,
}
use go_wirenet.Go.{Error, Go, ok, eof}
use go_wirenet.Io.{Delivers}
use go_wirenet.Stream.Conn.{Conn}
use go_wirenet.Stream.Defs.{Stream}
use go_wirenet.Stream.ReaderWriter.{StreamReader, contents, fill_until, take_out, reader_read}
use go_wirenet.Stream.Buffering.{taken, reader_read_open}
use go_wirenet.Stream.Reading.{Holds, Filled, held-Filled}

module _ {S : Type 0} (c : Conn S) {pending : S → Bytes} (law : Delivers c.reader pending)
    (limit : ℕ) (small : limit < 2 ^ 32)
    (full : (x : S) (n : ℕ) → n ≤ limit → n ≤ length (pending x) → length (c.reader.read x n).0 ≡ n)
    (rest : Bytes) where
  -- A Read's end with the end marker behind it.
  abbrev pub Ends : Bytes → Go (Bytes × Option Error) × StreamReader × Bytes × S → Type 0
  Ends view g =
      (r : StreamReader) × (hdr : Bytes) × (x : S) × (g
        ≡ (ok (view, if length view == 0 then some eof else none), r, hdr, x))
      × (contents r.buf ≡ [])
      × (r.eof ≡ true)
      × (pending x ≡ rest)

  take_out-Ends :
      (want : ℕ) (view : Bytes) (g : Go (Unit {0}) × StreamReader × Bytes × S)
      → 0 < want
      → length view < want
      → Filled c law limit small full rest view want g
      → Ends view (take_out c want g)
  take_out-Ends want view g pos short (r, hdr, x, e, inl ((cs, are, v, p, q, header), enough)) =
      absurd (omega (arith, ap length v, length-append (contents r.buf) (flatten cs)))
  take_out-Ends want view g pos short (r, hdr, x, e, inr (v, p, over)) =
      let b : Bytes = contents r.buf in
      let fits : length b ≤ want = omega (arith, ap length v) in
      (
        record r { buf = some (drop want b) },
        hdr,
        x,
        ap (take_out c want) e
            ∙ taken c want r hdr x pos
            ∙ ap
                (λ t. (
                  ok (t, if length b == 0 then some eof else none),
                  record r { buf = some (drop want b) },
                  hdr,
                  x,
                ))
                (take_all want b fits)
            ∙ ap
                (λ t. (
                  ok (t, if length t == 0 then some eof else none),
                  record r { buf = some (drop want b) },
                  hdr,
                  x,
                ))
                v,
        drop_all want b fits,
        over,
        p,
      )

  -- A Read with room for more than is left takes all of it, and the end marker behind it.
  pub reader_read-Ends :
      (fuel want : ℕ) (view : Bytes) (s : Stream) (r : StreamReader) (x : S)
      → length view < want
      → length (pending x) < fuel
      → s.closed ≡ false
      → Holds c law limit small full rest view r s.hdr x
      → Ends view (reader_read c fuel s want r x)
  reader_read-Ends fuel want view s r x short h is_open held =
      let r0 : StreamReader = record r { buf = some (contents r.buf) } in
      let (r', hdr, x', e, none_left, over, p) =
        take_out-Ends want view (fill_until c fuel want r0 s.hdr x) (omega arith) short
          (held-Filled c law limit small full rest fuel want view r0 s.hdr x h held) in
      (r', hdr, x', reader_read_open c fuel s want r x is_open ∙ e, none_left, over, p)
