-- ===== src/Examples/Transfer/Naming.antt =====
-- The file's name, as the client of the file server reads it (examples/transfer_files/client/main.go).
use go_wirenet.Base.{
  ℕ, suc, ◌^◌, ◌<◌, ◌≤◌, ◌≡◌, refl, ap, ◌∙◌, inl, some, none, Option, [], ◌∷◌, ◌++◌, append-nil,
  arith, Bytes, length, take, patch, replicate, length-replicate, take_all, drop_all, subst, ◌==◌,
  if◌then◌else◌, length-append, length-patch,
}
use go_wirenet.Go.{Error, Go, ok, eof}
use go_wirenet.Io.{Delivers}
use go_wirenet.Stream.Conn.{Conn}
use go_wirenet.Stream.Defs.{Stream, buf_size}
use go_wirenet.Stream.Chunks.{chunked, AreChunks}
use go_wirenet.Stream.Delivery.{IsReady}
use go_wirenet.Stream.ReaderWriter.{StreamReader, new_reader, reader_read}
use go_wirenet.Stream.Reading.{Holds, reader_read-Reads}
use go_wirenet.Stream.Keeping.{Keeps, reader_read-Keeps}
use go_wirenet.Stream.Last.{reader_read-Ends}
use go_wirenet.Examples.Transfer.Client.{read_name}

-- The buffer of 32 bytes with the name at its front.
abbrev pub padded : Bytes → Bytes
padded name = patch 0 name (replicate 32 0)

module _ {S : Type 0} (c : Conn S) {pending printed : S → Bytes} (law : Delivers c.reader pending)
    (full : (x : S) (n : ℕ) → n ≤ 32 → n ≤ length (pending x) → length (c.reader.read x n).0 ≡ n)
    (reads_apart : (x : S) (n : ℕ) → printed (c.reader.read x n).2 ≡ printed x) where
  with_hdr-IsReady :
      (s : Stream) (hdr : Bytes)
      → IsReady buf_size s
      → length hdr ≡ 4
      → IsReady buf_size (record s { hdr = hdr })
  with_hdr-IsReady s hdr h header = record { is_open = h.is_open; header = header; room = h.room }

  -- What the Reads of a name keep.
  abbrev Kept : ℕ → Bytes → Bytes → S → Type 0
  Kept n z hdr x = (length hdr ≡ 4) × (printed x ≡ z) × (length (pending x) ≤ n)

  Kept-Keeps : (n : ℕ) (z : Bytes) → Keeps c.reader (Kept n z)
  Kept-Keeps n z =
      let fewer = λ (x : S) (m : ℕ). ap length (law.front x m) in
      record {
        by_header = λ hdr x h. (
          length-patch 0 (c.reader.read x 4).0 hdr (omega (arith, law.within x 4, h.0)) ∙ h.0,
          reads_apart x 4 ∙ h.1,
          omega (
            arith,
            fewer x 4,
            h.2,
            length-append (c.reader.read x 4).0 (pending (c.reader.read x 4).2),
          ),
        );
        by_read = λ hdr x m h. (
          h.0,
          reads_apart x m ∙ h.1,
          omega (
            arith,
            fewer x m,
            h.2,
            length-append (c.reader.read x m).0 (pending (c.reader.read x m).2),
          ),
        );
      }

  next_read :
      (fuel : ℕ) (s : Stream) (r r' : StreamReader) (fn got hdr : Bytes) (x x' : S)
      → length fn ≡ 32
      → reader_read c fuel s 32 r x ≡ (ok (got, none), r', hdr, x')
      → read_name c (suc fuel) s r fn x
        ≡ read_name c fuel (record s { hdr = hdr }) r' (patch 0 got fn) x'
  unfolding read_name
  next_read fuel s r r' fn got hdr x x' room ran = rw (room, ran) refl

  last_read :
      (fuel : ℕ) (s : Stream) (r r' : StreamReader) (fn hdr : Bytes) (x x' : S)
      → length fn ≡ 32
      → reader_read c fuel s 32 r x ≡ (ok ([], some eof), r', hdr, x')
      → read_name c (suc fuel) s r fn x ≡ (ok fn, record s { hdr = hdr }, x')
  unfolding read_name
  last_read fuel s r r' fn hdr x x' room ran = rw (room, ran) refl

  -- Two Reads: the name, and the end.
  pub read_name_lem :
      (name rest : Bytes) (fuel : ℕ) (s : Stream) (x : S)
      → AreChunks 32 (name ∷ [])
      → IsReady buf_size s
      → length (pending x) < fuel
      → pending x ≡ chunked (name ∷ []) ++ rest
      → (s' : Stream) × (x' : S) × (read_name c (suc (suc fuel)) s new_reader (replicate 32 0) x
          ≡ (ok (padded name), s', x'))
        × IsReady buf_size s'
        × (printed x' ≡ printed x)
        × (pending x' ≡ rest)
  read_name_lem name rest fuel s x are ready h p =
      let P = Kept (length (pending x)) (printed x) in
      let keeps = Kept-Keeps (length (pending x)) (printed x) in
      let small : 32 < 2 ^ 32 = omega arith in
      let (r1, hdr1, x1, ran1, held) =
        reader_read-Reads c law 32 small full rest (suc fuel) 32 name s new_reader x (omega arith)
          (omega arith) ready.is_open
          (inl (name ∷ [], are, append-nil name, p, refl, ready.header)) in
      let k1 : P hdr1 x1 =
        subst (λ (g : Go (Bytes × Option Error) × StreamReader × Bytes × S). P g.2 g.3) ran1
          (reader_read-Keeps c P keeps (suc fuel) 32 s new_reader x
            (ready.header, refl, omega arith)) in
      let got : take 32 name ≡ name = take_all 32 name are.1 in
      let some_name : (if length name == 0 then some eof else none) ≡ none =
        ground (arith, are.0) in
      let ran1' : reader_read c (suc fuel) s 32 new_reader x ≡ (ok (name, none), r1, hdr1, x1) =
        ran1 ∙ (λ i. (ok (got i, some_name i), r1, hdr1, x1)) in
      let s1 : Stream = record s { hdr = hdr1 } in
      let (r2, hdr2, x2, ran2, _, _, left) =
        reader_read-Ends c law 32 small full rest fuel 32 [] s1 r1 x1 (omega arith)
          (omega (arith, k1.2)) ready.is_open
          (subst (λ v. Holds c law 32 small full rest v r1 hdr1 x1) (drop_all 32 name are.1)
            held) in
      let k2 : P hdr2 x2 =
        subst (λ (g : Go (Bytes × Option Error) × StreamReader × Bytes × S). P g.2 g.3) ran2
          (reader_read-Keeps c P keeps fuel 32 s1 r1 x1 k1) in
      let zeros : Bytes = replicate 32 0 in
      let room : length zeros ≡ 32 = length-replicate {A = ℕ} 32 0 in
      (
        record s { hdr = hdr2 },
        x2,
        next_read (suc fuel) s new_reader r1 zeros name hdr1 x x1 room ran1'
            ∙ last_read fuel s1 r1 r2 (padded name) hdr2 x1 x2
                (length-patch 0 name zeros (omega (arith, are.1)) ∙ room) ran2,
        with_hdr-IsReady s hdr2 ready k2.0,
        k2.1,
        left,
      )
