-- ===== src/Stream/Filling.antt =====
-- How the reader of a stream fills its buffer with a chunk (stream.go).
use go_wirenet.Base.{
  ℕ, suc, ◌+◌, ◌-◌, ◌^◌, ◌≤◌, ◌<◌, ◌≡◌, ◌≢◌, refl, sym, ap, ◌∙◌, some, none, ◌++◌, append-nil,
  arith, Bytes, length, drop, patch, replicate, length-replicate, length-patch, drop-drop,
  drop-append, put_uint32,
}
use go_wirenet.Go.{ok}
use go_wirenet.Io.{Delivers}
use go_wirenet.Stream.Conn.{Conn}
use go_wirenet.Stream.Defs.{read_header}
use go_wirenet.Stream.Chunks.{read_header-word}
use go_wirenet.Stream.ReaderWriter.{StreamReader, contents, fill_loop, fill, filled, after_header}
use go_wirenet.Frame.Truncation.{drop-replicate}

module _ {S : Type 0} (c : Conn S) (fuel size n : ℕ) (p b : Bytes) (x x' : S)
    (fits : length p ≡ size) (less : n < size) (got : c.reader.read x size ≡ (b, none, x')) where
  next_round :
      n + length b ≢ size
      → fill_loop c (suc fuel) n p x ≡ fill_loop c fuel (n + length b) (patch 0 b p) x'
  unfolding fill_loop
  next_round more = ground arith

  last_round :
      n + length b ≡ size → fill_loop c (suc fuel) n p x ≡ (ok (size, none), patch 0 b p, x')
  unfolding fill_loop
  last_round last = ground arith

filled_chunk :
    {S : Type 0} (c : Conn S) (size : ℕ) (b : Bytes) (r : StreamReader) (x : S)
    → filled c size r (ok (size, none), b, x)
      ≡ (ok none, record r { buf = some (contents r.buf ++ b) }, x)
filled_chunk c size b r x = ground arith

-- `fill`, by way of its header and its loop.
fill_chunk :
    {S : Type 0} (c : Conn S) (fuel size : ℕ) (hdr hdr' b : Bytes) (r : StreamReader) (x x1 x2 : S)
    → read_header c.reader hdr x ≡ (size, none, hdr', x1)
    → fill_loop c fuel 0 (replicate size 0) x1 ≡ (ok (size, none), b, x2)
    → fill c fuel hdr r x ≡ ((ok none, record r { buf = some (contents r.buf ++ b) }, x2), hdr')
unfolding fill
fill_chunk c fuel size hdr hdr' b r x x1 x2 h ran =
    ap (after_header c fuel r) h
    ∙ ap (λ g. (filled c size r g, hdr')) ran
    ∙ ap (λ g. (g, hdr')) (filled_chunk c size b r x2)

-- Over a buffer of zeros: a read of all of it, and a read of its rest after a shorter one.
patch_zeros : (b : Bytes) (n : ℕ) → patch 0 b (replicate n 0) ≡ b ++ replicate (n - length b) 0
patch_zeros b n = ap (◌++◌ b) (
    drop-replicate (0 + length b) n 0
    ∙ ap (λ k. replicate {A = ℕ} (n - k) 0) (let e : 0 + length b ≡ length b = omega arith in e))

patch_twice :
    (a b : Bytes) (n : ℕ)
    → length a ≤ length b
    → patch 0 b (a ++ replicate n 0) ≡ b ++ replicate (length a + n - length b) 0
patch_twice a b n h =
    let zeros : Bytes = replicate n 0 in
    let k : ℕ = length b - length a in
    let past : length a + k ≡ 0 + length b = omega arith in
    let left : n - k ≡ length a + n - length b = omega arith in
    ap (◌++◌ b) (
      ap (λ m. drop m (a ++ zeros)) (sym past)
      ∙ sym (drop-drop k (length a) (a ++ zeros))
      ∙ ap (drop k) (drop-append (length a) a zeros refl)
      ∙ drop-replicate k n 0
      ∙ ap (λ m. replicate m 0) left)

module _ {S : Type 0} (c : Conn S) {pending : S → Bytes} (law : Delivers c.reader pending)
    (hdr rest : Bytes) (r : StreamReader) (fuel size : ℕ) (x : S) (pos : 0 < size)
    (small : size < 2 ^ 32) (header : length hdr ≡ 4)
    (come : pending x ≡ put_uint32 size ++ rest) where
  abbrev x1 : S
  x1 = (c.reader.read x 4).2

  -- A chunk that comes in one read goes behind what the reader's buffer holds.
  pub fill_whole :
      (chunk : Bytes) (x2 : S)
      → length chunk ≡ size
      → c.reader.read x1 size ≡ (chunk, none, x2)
      → fill c (suc fuel) hdr r x
        ≡ ((ok none, record r { buf = some (contents r.buf ++ chunk) }, x2), put_uint32 size)
  fill_whole chunk x2 whole one =
      let (read, _) = read_header-word c.reader law size rest hdr x pos small header come in
      let zeros : Bytes = replicate size 0 in
      let none_left : size - length chunk ≡ 0 = omega arith in
      let filled_with : patch 0 chunk zeros ≡ chunk =
        patch_zeros chunk size ∙ ap (λ k. chunk ++ replicate k 0) none_left ∙ append-nil chunk in
      let ran : fill_loop c (suc fuel) 0 zeros x1 ≡ (ok (size, none), chunk, x2) =
        last_round c fuel size 0 zeros chunk x1 x2 (length-replicate {A = ℕ} size 0) pos one
          (omega arith)
        ∙ ap (λ t. (ok (size, none), t, x2)) filled_with in
      fill_chunk c (suc fuel) size hdr (put_uint32 size) chunk r x x1 x2 read ran

  -- A chunk that comes in two reads, the second no shorter than the first: the second is put over
  -- the first, and the reader's buffer gets it with zeros for the bytes that are lost. No error is
  -- returned.
  pub fill_split :
      (a b : Bytes) (x2 x3 : S)
      → 0 < length a
      → length a ≤ length b
      → length a + length b ≡ size
      → c.reader.read x1 size ≡ (a, none, x2)
      → c.reader.read x2 size ≡ (b, none, x3)
      → (fill c (suc (suc fuel)) hdr r x).0
        ≡ (ok none, record r { buf = some (contents r.buf ++ (b ++ replicate (length a) 0)) }, x3)
  fill_split a b x2 x3 some_a less all one two =
      let (read, _) = read_header-word c.reader law size rest hdr x pos small header come in
      let zeros : Bytes = replicate size 0 in
      let p1 : Bytes = patch 0 a zeros in
      let long : length zeros ≡ size = length-replicate {A = ℕ} size 0 in
      let kept : length p1 ≡ size = length-patch 0 a zeros (omega arith) ∙ long in
      let over : length a + (size - length a) - length b ≡ length a = omega arith in
      let filled_with : patch 0 b p1 ≡ b ++ replicate (length a) 0 =
        ap (patch 0 b) (patch_zeros a size)
        ∙ patch_twice a b (size - length a) less
        ∙ ap (λ k. b ++ replicate k 0) over in
      let ran : fill_loop c (suc (suc fuel)) 0 zeros x1
          ≡ (ok (size, none), b ++ replicate (length a) 0, x3) =
        next_round c (suc fuel) size 0 zeros a x1 x2 long pos one (omega arith)
        ∙ last_round c fuel size (0 + length a) p1 b x2 x3 kept (omega arith) two (omega arith)
        ∙ ap (λ t. (ok (size, none), t, x3)) filled_with in
      ap (λ g. g.0)
        (fill_chunk c (suc (suc fuel)) size hdr (put_uint32 size) (b ++ replicate (length a) 0) r x
          x1 x3 read ran)
