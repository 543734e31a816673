-- ===== src/Examples/Transfer/Sending.antt =====
-- What the file server puts on a stream (examples/transfer_files/server/main.go).
use go_wirenet.Base.{
  ℕ, subst, ◌<◌, ◌≡◌, refl, sym, ap, ◌∙◌, Option, Option-cases, inl, inr, some, none, List, [], ◌∷◌,
  ◌++◌, append-nil, append_assoc, arith, Bytes, length, flatten, All,
}
use go_wirenet.Base.Assoc.{Assoc}
use go_wirenet.Go.{Error, Go, ok, err, eof}
use go_wirenet.Io.{Reader, Delivers, IsWriter}
use go_wirenet.Stream.Conn.{Conn}
use go_wirenet.Stream.Defs.{Stream, buf_size}
use go_wirenet.Stream.Transfer.{read_from}
use go_wirenet.Stream.Chunks.{chunked, AreChunks}
use go_wirenet.Stream.Chunking.{read_from-Cuts}
use go_wirenet.Stream.Delivery.{IsReady}
use go_wirenet.Stream.Ready.{read_from-IsReady}
use go_wirenet.Stream.Parts.{write_part, sent-write_part, obs-write_part}
use go_wirenet.Examples.Transfer.Server.{
  Ran, drop_results, and_then, after_open, transfer, send_files,
}

-- The bytes of files that are sent one after the other, each as its name and its contents.
abbrev pub Carries : List (Bytes × Bytes) → Bytes → Type 0
Carries [] out = out ≡ []
Carries ((name, body) ∷ files) out =
    (cs : List Bytes) × (more : Bytes) × AreChunks buf_size cs
    × (flatten cs ≡ body)
    × Carries files more
    × (out ≡ chunked (name ∷ []) ++ (chunked cs ++ more))

-- os.Open on a disk whose files have the contents `body`: a missing file is an error, and neither
-- opening nor reading a file writes to the connection.
pub record Disk {S : Type 0} (c : Conn S) (sent : S → Bytes)
    (open_file : Bytes → S → Go (Reader S) × S) (body : Bytes → Option Bytes) : Type 0 where
  pub opened :
      (p b : Bytes) (x : S)
      → body p ≡ some b
      → (file : Reader S) × (pending : S → Bytes) × (x' : S) × (open_file p x ≡ (ok file, x'))
        × Delivers file pending
        × ((y : S) (n : ℕ) → pending y ≡ [] → (file.read y n).1 ≡ some eof)
        × ((y : S) (n : ℕ) → sent (file.read y n).2 ≡ sent y)
        × ((y : S) (q : Bytes) → pending (c.writer.write y q).2 ≡ pending y)
        × (sent x' ≡ sent x)
        × (pending x' ≡ b)
  pub missing :
      (p : Bytes) (x : S)
      → body p ≡ none
      → (e : Error) × (x' : S) × (open_file p x ≡ (err e, x')) × (sent x' ≡ sent x)

-- The names of the files that are there, with their contents.
abbrev pub found : (Bytes → Bytes) → (Bytes → Option Bytes) → Assoc Bytes → List (Bytes × Bytes)
found path body [] = []
found path body ((name, fpath) ∷ rest) = elim (body (path name)) [
  | none ↦ found path body rest
  | some b ↦ (name, b) ∷ found path body rest
]

module _ {S : Type 0} (c : Conn S) (path : Bytes → Bytes)
    (open_file : Bytes → S → Go (Reader S) × S) (fuel : ℕ) {sent : S → Bytes}
    (takes : IsWriter c.writer sent) (fine : (x : S) (p : Bytes) → (c.writer.write x p).1 ≡ none)
    (body : Bytes → Option Bytes) (disk : Disk c sent open_file body) where
  -- The end of a transfer from `x` on that put `out` on the stream.
  abbrev pub Sends : S → Bytes → Ran S → Type 0
  Sends x out g =
      (s' : Stream) × (x' : S) × (g ≡ (ok tt, s', x'))
      × IsReady buf_size s'
      × (sent x' ≡ sent x ++ out)

  transfer-Sends :
      (name fpath b : Bytes) (s : Stream) (x : S)
      → AreChunks 32 (name ∷ [])
      → IsReady buf_size s
      → body (path name) ≡ some b
      → length b < fuel
      → (cs : List Bytes) × AreChunks buf_size cs
        × (flatten cs ≡ b)
        × Sends x
            (chunked (name ∷ []) ++ chunked cs)
            (transfer c path open_file fuel name fpath s x)
  unfolding transfer
  transfer-Sends name fpath b s x are ready there h =
      let (file, pending, x1, ran, law, ends, reads_apart, writes_apart, kept, whole) =
        disk.opened (path name) b x there in
      let x2 : S = write_part c s (name ∷ []) x1 in
      let (cs, s', x3, are', flat, copied, out, _) =
        read_from-Cuts c file law takes fine ends reads_apart writes_apart fuel b s x2 h
          ready.is_open ready.room
          (obs-write_part c pending writes_apart s (name ∷ []) x1 ∙ whole) in
      let still : IsReady buf_size (read_from c file fuel s x2).1 =
        read_from-IsReady c file buf_size (record { within = law.within }) fuel s x2 refl ready in
      (
        cs,
        are',
        flat,
        (
          s',
          x3,
          ap (after_open c path open_file fuel name s) ran ∙ ap drop_results copied,
          subst (λ (g : Go (ℕ × Option Error) × Stream × S). IsReady buf_size g.1) copied still,
          out
              ∙ ap (λ t. t ++ chunked cs)
                  (sent-write_part c takes fine s ready.is_open 32 (name ∷ []) x1 (omega arith) are
                    ∙ ap (λ t. t ++ chunked (name ∷ [])) kept)
              ∙ append_assoc (sent x) (chunked (name ∷ [])) (chunked cs),
        ),
      )

  transfer-missing :
      (name fpath : Bytes) (s : Stream) (x : S)
      → body (path name) ≡ none
      → (x' : S) × (transfer c path open_file fuel name fpath s x ≡ (ok tt, s, x'))
        × (sent x' ≡ sent x)
  unfolding transfer
  transfer-missing name fpath s x gone =
      let (e, x', ran, kept) = disk.missing (path name) x gone in
      (x', ap (after_open c path open_file fuel name s) ran, kept)

  -- What is sent of the files `fs`.
  abbrev pub SendsFiles : List (Bytes × Bytes) → S → Ran S → Type 0
  SendsFiles fs x g = (out : Bytes) × Carries fs out × Sends x out g

  abbrev pub names : Assoc Bytes → List Bytes
  names [] = []
  names ((name, fpath) ∷ rest) = name ∷ names rest

  -- The handler of "stats", for names of 1 to 32 bytes: it ends, and has sent each file that is
  -- there, in the order of the map's entries, and nothing of the others.
  pub send_files-Sends :
      (fs : Assoc Bytes) (s : Stream) (x : S)
      → AreChunks 32 (names fs)
      → IsReady buf_size s
      → All (λ (f : Bytes × Bytes). length f.1 < fuel) (found path body fs)
      → SendsFiles (found path body fs) x (send_files c path open_file fuel fs s x)
  unfolding send_files
  send_files-Sends [] s x are ready fit = ([], refl, (s, x, refl, ready, sym (append-nil (sent x))))
  send_files-Sends ((name, fpath) ∷ rest) s x are ready fit =
      elim (Option-cases (body (path name))) [
        | inl gone ↦
            let (x1, ran, kept) = transfer-missing name fpath s x gone in
            let here : found path body ((name, fpath) ∷ rest) ≡ found path body rest =
              rw (gone, found) refl in
            let (out, carries, (s', x', more, still, got)) =
              send_files-Sends rest s x1 are.2 ready
                (subst (All (λ (f : Bytes × Bytes). length f.1 < fuel)) here fit) in
            (
              out,
              subst (λ fs. Carries fs out) (sym here) carries,
              (
                s',
                x',
                ap (and_then (send_files c path open_file fuel rest)) ran ∙ more,
                still,
                got ∙ ap (λ t. t ++ out) kept,
              ),
            )
        | inr (b, there) ↦
            let here : found path body ((name, fpath) ∷ rest) ≡ (name, b) ∷ found path body rest =
              rw (there, found) refl in
            let fits = subst (All (λ (f : Bytes × Bytes). length f.1 < fuel)) here fit in
            let (cs, are', flat, (s1, x1, ran, ready1, sent1)) =
              transfer-Sends name fpath b s x (are.0, are.1, tt) ready there fits.0 in
            let (out, carries, (s', x', more, still, got)) =
              send_files-Sends rest s1 x1 are.2 ready1 fits.1 in
            let whole : Bytes = chunked (name ∷ []) ++ (chunked cs ++ out) in
            (
              whole,
              subst (λ fs. Carries fs whole) (sym here) (cs, out, are', flat, carries, refl),
              (
                s',
                x',
                ap (and_then (send_files c path open_file fuel rest)) ran ∙ more,
                still,
                got
                    ∙ ap (λ t. t ++ out) sent1
                    ∙ append_assoc (sent x) (chunked (name ∷ []) ++ chunked cs) out
                    ∙ ap (◌++◌ (sent x)) (append_assoc (chunked (name ∷ [])) (chunked cs) out),
              ),
            )
      ]
