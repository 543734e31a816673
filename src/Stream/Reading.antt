-- ===== src/Stream/Reading.antt =====
-- Reads of a stream's reader (stream.go) against a queue of bytes.
use go_wirenet.Base.{
  ℕ, zero, suc, ◌+◌, ◌^◌, ◌≤◌, ◌<◌, ◌≡◌, ◌⊎◌, inl, inr, refl, sym, ap, ◌∙◌, true, false, Bool-cases,
  some, none, Option, List, [], ◌∷◌, ◌++◌, append_assoc, append-nil, append-cancel, arith, Bytes,
  length, take, drop, flatten, length-append, take_front, drop_front, put_uint32, ltb, ltb→lt, ◌==◌,
  if◌then◌else◌,
}
use go_wirenet.Go.{Go, Error, ok, eof}
use go_wirenet.Io.{Delivers}
use go_wirenet.Stream.Conn.{Conn}
use go_wirenet.Stream.Defs.{Stream}
use go_wirenet.Stream.Chunks.{chunked, AreChunks, word_value, read_header-word, read_header-end}
use go_wirenet.Stream.ReaderWriter.{
  StreamReader, contents, after_fill, fill_until, take_out, reader_read,
}
use go_wirenet.Stream.Filling.{fill_whole}
use go_wirenet.Stream.Buffering.{
  no_round, a_round, not-ltb, both_some, none_after_end, count-chunked, reader_read_open, taken,
  fill_end,
}

module _ {S : Type 0} (c : Conn S) {pending : S → Bytes} (law : Delivers c.reader pending)
    (limit : ℕ) (small : limit < 2 ^ 32)
    (full : (x : S) (n : ℕ) → n ≤ limit → n ≤ length (pending x) → length (c.reader.read x n).0 ≡ n)
    (rest : Bytes) where
  -- What the reader will hand out is `view`: its buffer, and behind it the chunks that are to come.
  abbrev pub IsComing : Bytes → StreamReader → Bytes → S → Type 0
  IsComing view r hdr x =
      (cs : List Bytes) × AreChunks limit cs
      × (contents r.buf ++ flatten cs ≡ view)
      × (pending x ≡ chunked cs ++ rest)
      × (r.eof ≡ false)
      × (length hdr ≡ 4)

  -- The end marker is read: what is left is in the buffer.
  abbrev pub IsOver : Bytes → StreamReader → S → Type 0
  IsOver view r x = (contents r.buf ≡ view) × (pending x ≡ rest) × (r.eof ≡ true)

  abbrev pub Holds : Bytes → StreamReader → Bytes → S → Type 0
  Holds view r hdr x = IsComing view r hdr x ⊎ IsOver view r x

  abbrev pub Filled : Bytes → ℕ → Go (Unit {0}) × StreamReader × Bytes × S → Type 0
  Filled view want g =
      (r : StreamReader) × (hdr : Bytes) × (x : S) × (g ≡ (ok tt, r, hdr, x))
      × ((IsComing view r hdr x × (want ≤ length (contents r.buf))) ⊎ IsOver view r x)

  ahead :
      {view : Bytes} {want : ℕ} {g g' : Go (Unit {0}) × StreamReader × Bytes × S}
      → g ≡ g'
      → Filled view want g'
      → Filled view want g
  ahead e (r, hdr, x, q, h) = (r, hdr, x, e ∙ q, h)

  -- A chunk that has arrived is read whole.
  read_chunk :
      (chunk more : Bytes) (x : S)
      → 0 < length chunk
      → length chunk ≤ limit
      → pending x ≡ chunk ++ more
      → (c.reader.read x (length chunk) ≡ (chunk, none, (c.reader.read x (length chunk)).2))
        × (pending (c.reader.read x (length chunk)).2 ≡ more)
  read_chunk chunk more x pos fits p =
      let bytes : Bytes = (c.reader.read x (length chunk)).0 in
      let x' : S = (c.reader.read x (length chunk)).2 in
      let there : length chunk ≤ length (pending x) =
        omega (arith, ap length p, length-append chunk more) in
      let (same, left) =
        append-cancel bytes chunk (pending x') more (full x (length chunk) fits there)
          (law.front x (length chunk) ∙ p) in
      let fine : (c.reader.read x (length chunk)).1 ≡ none =
        law.no_error x (length chunk) (λ e. absurd (omega (arith, ap length e))) in
      ((λ i. (same i, fine i, x')), left)

  fill_until-Filled :
      (fuel want : ℕ) (cs : List Bytes) (view : Bytes) (r : StreamReader) (hdr : Bytes) (x : S)
      → length cs + 1 < fuel
      → AreChunks limit cs
      → contents r.buf ++ flatten cs ≡ view
      → pending x ≡ chunked cs ++ rest
      → r.eof ≡ false
      → length hdr ≡ 4
      → Filled view want (fill_until c fuel want r hdr x)
  fill_until-Filled zero want cs view r hdr x h are v p e header = absurd (omega arith)
  fill_until-Filled (suc fuel) want [] view r hdr x h are v p e header =
      elim (Bool-cases (ltb (length (contents r.buf)) want)) [
        | inr enough ↦ (
          r,
          hdr,
          x,
          no_round c fuel want r hdr x (rw enough refl),
          inl ((([], tt, v, p, e, header), not-ltb (length (contents r.buf)) want enough)),
        )
        | inl few ↦
            let (read, left) = read_header-end c.reader law rest hdr x header p in
            (
              record r { eof = true },
              put_uint32 0,
              (c.reader.read x 4).2,
              a_round c fuel want r hdr x (ltb→lt (length (contents r.buf)) want few) e
                  ∙ ap (after_fill c (λ r' hdr' x'. fill_until c fuel want r' hdr' x'))
                      (fill_end c fuel r hdr (put_uint32 0) x (c.reader.read x 4).2 read),
              inr (sym (append-nil (contents r.buf)) ∙ v, left, refl),
            )
      ]
  fill_until-Filled (suc zero) want (chunk ∷ cs) view r hdr x h are v p e header =
      absurd (omega arith)
  fill_until-Filled (suc (suc fuel)) want (chunk ∷ cs) view r hdr x h are v p e header =
      elim (Bool-cases (ltb (length (contents r.buf)) want)) [
        | inr enough ↦ (
          r,
          hdr,
          x,
          no_round c (suc fuel) want r hdr x (rw enough refl),
          inl (((chunk ∷ cs, are, v, p, e, header), not-ltb (length (contents r.buf)) want enough)),
        )
        | inl few ↦
            let size : ℕ = length chunk in
            let more : Bytes = chunked cs ++ rest in
            let come : pending x ≡ put_uint32 size ++ (chunk ++ more) =
              p
              ∙ append_assoc (put_uint32 size ++ chunk) (chunked cs) rest
              ∙ append_assoc (put_uint32 size) chunk more in
            let (_, left) =
              read_header-word c.reader law size (chunk ++ more) hdr x are.0 (omega (arith, are.1))
                header come in
            let x1 : S = (c.reader.read x 4).2 in
            let x2 : S = (c.reader.read x1 size).2 in
            let (one, behind) = read_chunk chunk more x1 are.0 are.1 left in
            let r' : StreamReader = record r { buf = some (contents r.buf ++ chunk) } in
            ahead
              (a_round c (suc fuel) want r hdr x (ltb→lt (length (contents r.buf)) want few) e
                ∙ ap (after_fill c (λ r1 hdr' x'. fill_until c (suc fuel) want r1 hdr' x')) (
                    fill_whole c law hdr (chunk ++ more) r fuel size x are.0 (omega (arith, are.1))
                      header come chunk x2 refl one))
              (fill_until-Filled (suc fuel) want cs view r' (put_uint32 size) x2 (omega arith) are.2
                (append_assoc (contents r.buf) chunk (flatten cs) ∙ v) behind e
                (word_value size (omega (arith, are.1))).1)
      ]

  -- The end of `Read`: the front of the view, or io.EOF where it is empty.
  abbrev pub Reads : ℕ → Bytes → Go (Bytes × Option Error) × StreamReader × Bytes × S → Type 0
  Reads want view g =
      (r : StreamReader) × (hdr : Bytes) × (x : S) × (g
        ≡ (ok (take want view, if length view == 0 then some eof else none), r, hdr, x))
      × Holds (drop want view) r hdr x

  take_out-Reads :
      (want : ℕ) (view : Bytes) (g : Go (Unit {0}) × StreamReader × Bytes × S)
      → 0 < want
      → Filled view want g
      → Reads want view (take_out c want g)
  take_out-Reads want view g pos (r, hdr, x, e, inr (v, p, over)) = (
    record r { buf = some (drop want (contents r.buf)) },
    hdr,
    x,
    ap (take_out c want) e
        ∙ taken c want r hdr x pos
        ∙ ap
            (λ b. (
              ok (take want b, if length b == 0 then some eof else none),
              record r { buf = some (drop want (contents r.buf)) },
              hdr,
              x,
            ))
            v,
    inr (ap (drop want) v, p, over),
  )
  take_out-Reads want view g pos (r, hdr, x, e, inl ((cs, are, v, p, e', header), enough)) =
      let b : Bytes = contents r.buf in
      let front : take want b ≡ take want view =
        sym (take_front want b (flatten cs) enough) ∙ ap (take want) v in
      let behind : drop want b ++ flatten cs ≡ drop want view =
        sym (drop_front want b (flatten cs) enough) ∙ ap (drop want) v in
      let same : (if length b == 0 then some eof else none)
          ≡ (if length view == 0 then some eof else none) =
        both_some (length b) (length view) (omega arith)
          (omega (arith, ap length v, length-append b (flatten cs))) in
      (
        record r { buf = some (drop want b) },
        hdr,
        x,
        ap (take_out c want) e
            ∙ taken c want r hdr x pos
            ∙ (λ i. (ok (front i, same i), record r { buf = some (drop want b) }, hdr, x)),
        inl (cs, are, behind, p, e', header),
      )

  pub held-Filled :
      (fuel want : ℕ) (view : Bytes) (r : StreamReader) (hdr : Bytes) (x : S)
      → length (pending x) < fuel
      → Holds view r hdr x
      → Filled view want (fill_until c fuel want r hdr x)
  held-Filled fuel want view r hdr x h (inl (cs, are, v, p, e, header)) =
      fill_until-Filled fuel want cs view r hdr x
        (omega (arith, ap length p, length-append (chunked cs) rest, count-chunked cs)) are v p e
        header
  held-Filled zero want view r hdr x h (inr over) = absurd (omega arith)
  held-Filled (suc fuel) want view r hdr x h (inr over) = (
    r,
    hdr,
    x,
    no_round c fuel want r hdr x (none_after_end (ltb (length (contents r.buf)) want) r.eof over.2),
    inr over,
  )

  later :
      (want : ℕ) (view : Bytes) {g g' : Go (Bytes × Option Error) × StreamReader × Bytes × S}
      → g ≡ g'
      → Reads want view g'
      → Reads want view g
  later want view e (r, hdr, x, q, h) = (r, hdr, x, e ∙ q, h)

  -- The reader of an open stream is a queue of bytes, where a read of a chunk's bytes that have
  -- arrived is whole: while it holds `view`, in its buffer and in chunks that have arrived, a Read
  -- with room returns the front of `view`, or io.EOF where `view` is empty, and the reader holds what
  -- is behind that; the bytes past the end marker stay on the connection.
  pub reader_read-Reads :
      (fuel want : ℕ) (view : Bytes) (s : Stream) (r : StreamReader) (x : S)
      → 0 < want
      → length (pending x) < fuel
      → s.closed ≡ false
      → Holds view r s.hdr x
      → Reads want view (reader_read c fuel s want r x)
  reader_read-Reads fuel want view s r x pos h is_open held =
      let r0 : StreamReader = record r { buf = some (contents r.buf) } in
      later want view (reader_read_open c fuel s want r x is_open) (
        take_out-Reads want view (fill_until c fuel want r0 s.hdr x) pos
          (held-Filled fuel want view r0 s.hdr x h held))
