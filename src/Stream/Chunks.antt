-- ===== src/Stream/Chunks.antt =====
-- The chunked form of a stream, and how its pieces are read: a header word, then the chunk.
use mathlib.Core.Path.{subst₂}
use native.Mathlib.Decide.{ℕ_discrete}
use go_wirenet.Base.{
  ℕ, zero, suc, ◌+◌, ◌-◌, ◌^◌, ◌≤◌, ◌<◌, ◌≡◌, ◌≢◌, refl, sym, ap, subst, ◌∙◌, Option, some, none,
  List, [], ◌∷◌, ◌++◌, append_assoc, append-nil, arith, Bytes, length, take, drop, patch,
  length-append, length-drop, length-patch, split-front, append-cancel, patch-append, put_uint32,
  uint32, take-append, drop_all,
}
use go_wirenet.Go.{Go, ok, Error, eof}
use go_wirenet.Io.{Reader, Delivers}
use go_wirenet.Stream.Defs.{read_header, read_loop}

abbrev pub chunk_bytes : Bytes → Bytes
chunk_bytes c = put_uint32 (length c) ++ c

-- The chunks, each behind its length, and the end marker.
abbrev pub chunked : List Bytes → Bytes
chunked [] = put_uint32 0
chunked (c ∷ cs) = chunk_bytes c ++ chunked cs

-- A chunk that fits a buffer of `limit` bytes and is not mistaken for the end.
abbrev pub AreChunks : ℕ → List Bytes → Type 0
AreChunks limit [] = Unit
AreChunks limit (c ∷ cs) = (0 < length c) × (length c ≤ limit) × AreChunks limit cs

pub word_value : (v : ℕ) → v < 2 ^ 32 → (uint32 (put_uint32 v) ≡ v) × (length (put_uint32 v) ≡ 4)
unfolding put_uint32 uint32
word_value v h = (omega arith, refl)

module _ {S : Type 0} (r : Reader S) (hdr : Bytes) (x : S) where
  abbrev hdr_read : Bytes
  hdr_read = patch 0 (r.read x 4).0 hdr

  header_some :
      (r.read x 4).1 ≡ none
      → length (r.read x 4).0 ≡ 4
      → 0 < uint32 hdr_read
      → read_header r hdr x ≡ (uint32 hdr_read, none, hdr_read, (r.read x 4).2)
  unfolding read_header
  header_some fine whole pos = ground arith

  header_end :
      (r.read x 4).1 ≡ none
      → length (r.read x 4).0 ≡ 4
      → uint32 hdr_read ≡ 0
      → read_header r hdr x ≡ (0, some eof, hdr_read, (r.read x 4).2)
  unfolding read_header
  header_end fine whole zero_word = ground arith

-- The rounds of `read(offset)`.
module _ {S : Type 0} (r : Reader S) (fuel offset n : ℕ) (buf : Bytes) (x : S) where
  abbrev got : Bytes
  got = (r.read x (offset - n)).0

  abbrev after : S
  after = (r.read x (offset - n)).2

  no_round : n ≡ offset → read_loop r (suc fuel) offset n buf x ≡ (ok (n, none), buf, x)
  unfolding read_loop
  no_round e = ground arith

  last_round :
      n < offset
      → offset ≤ length buf
      → n + length got ≡ offset
      → (r.read x (offset - n)).1 ≡ none
      → read_loop r (suc fuel) offset n buf x ≡ (ok (offset, none), patch n got buf, after)
  unfolding read_loop
  last_round h k e q = ground arith

  next_round :
      n < offset
      → offset ≤ length buf
      → n + length got ≢ offset
      → (r.read x (offset - n)).1 ≡ none
      → read_loop r (suc fuel) offset n buf x
        ≡ read_loop r fuel offset (n + length got) (patch n got buf) after
  unfolding read_loop
  next_round h k e q = ground arith

module _ {S : Type 0} (r : Reader S) {pending : S → Bytes} (law : Delivers r pending) where
  -- A header word that has arrived is read whole.
  read_word :
      (v : ℕ) (rest hdr : Bytes) (x : S)
      → v < 2 ^ 32
      → length hdr ≡ 4
      → pending x ≡ put_uint32 v ++ rest
      → ((r.read x 4).1 ≡ none)
        × (length (r.read x 4).0 ≡ 4)
        × (patch 0 (r.read x 4).0 hdr ≡ put_uint32 v)
        × (pending (r.read x 4).2 ≡ rest)
  read_word v rest hdr x h k p =
      let bytes : Bytes = (r.read x 4).0 in
      let long : length (pending x) ≡ 4 + length rest =
        omega (arith, ap length p, length-append (put_uint32 v) rest, word_value v h) in
      let whole : length bytes ≡ 4 = law.whole_header x 4 (omega arith) (omega arith) in
      let (word, left) =
        append-cancel bytes (put_uint32 v) (pending (r.read x 4).2) rest
          (omega (arith, word_value v h)) (law.front x 4 ∙ p) in
      (
        law.no_error x 4 (λ e. absurd (omega (arith, ap length e))),
        whole,
        ap (◌++◌ bytes) (drop_all (0 + length bytes) hdr (omega arith)) ∙ append-nil bytes ∙ word,
        left,
      )

  pub read_header-word :
      (v : ℕ) (rest hdr : Bytes) (x : S)
      → 0 < v
      → v < 2 ^ 32
      → length hdr ≡ 4
      → pending x ≡ put_uint32 v ++ rest
      → (read_header r hdr x ≡ (v, none, put_uint32 v, (r.read x 4).2))
        × (pending (r.read x 4).2 ≡ rest)
  read_header-word v rest hdr x pos h k p =
      let (fine, whole, word, left) = read_word v rest hdr x h k p in
      let value : uint32 (put_uint32 v) ≡ v = (word_value v h).0 in
      let here : uint32 (patch 0 (r.read x 4).0 hdr) ≡ v = ap uint32 word ∙ value in
      (
        header_some r hdr x fine whole (omega arith)
            ∙ (λ i. (here i, none, word i, (r.read x 4).2)),
        left,
      )

  pub read_header-end :
      (rest hdr : Bytes) (x : S)
      → length hdr ≡ 4
      → pending x ≡ put_uint32 0 ++ rest
      → (read_header r hdr x ≡ (0, some eof, put_uint32 0, (r.read x 4).2))
        × (pending (r.read x 4).2 ≡ rest)
  read_header-end rest hdr x k p =
      let (fine, whole, word, left) = read_word 0 rest hdr x (omega arith) k p in
      let value : uint32 (put_uint32 0) ≡ 0 = (word_value 0 (omega arith)).0 in
      (
        header_end r hdr x fine whole (ap uint32 word ∙ value)
            ∙ (λ i. (0, some eof, word i, (r.read x 4).2)),
        left,
      )

  -- `read(size)` puts a chunk that is to come in front of the buffer, and takes no byte behind it.
  abbrev pub ReadsChunk : Bytes → Bytes → ℕ → Go (ℕ × Option Error) × Bytes × S → Type 0
  ReadsChunk chunk rest room g =
      (buf' : Bytes) × (x' : S) × (g ≡ (ok (length chunk, none), buf', x'))
      × (take (length chunk) buf' ≡ chunk)
      × (length buf' ≡ room)
      × (pending x' ≡ rest)

  later :
      {a b rest : Bytes} {m n : ℕ} {g : Go (ℕ × Option Error) × Bytes × S}
      → a ≡ b
      → m ≡ n
      → ReadsChunk a rest m g
      → ReadsChunk b rest n g
  later {rest} {g} e k h = subst₂ (λ c j. ReadsChunk c rest j g) e k h

  read_loop-ReadsChunk :
      (fuel offset n : ℕ) (front xs fill rest buf : Bytes) (x : S)
      → n ≡ length front
      → offset ≡ n + length xs
      → buf ≡ front ++ fill
      → length xs ≤ length fill
      → length xs < fuel
      → pending x ≡ xs ++ rest
      → ReadsChunk (front ++ xs) rest (length buf) (read_loop r fuel offset n buf x)
  read_loop-ReadsChunk zero offset n front xs fill rest buf x hn ho hb hl h p = absurd (omega arith)
  read_loop-ReadsChunk (suc fuel) offset n front [] fill rest buf x hn ho hb hl h p =
      let is_n : n ≡ length (front ++ []) = omega (arith, length-append front []) in
      (
        buf,
        x,
        no_round r fuel offset n buf x (omega arith) ∙ ap (λ m. (ok (m, none), buf, x)) is_n,
        ap (take (length (front ++ []))) hb
            ∙ take-append (length (front ++ [])) front fill (ap length (sym (append-nil front)))
            ∙ sym (append-nil front),
        refl,
        p,
      )
  read_loop-ReadsChunk (suc fuel) offset n front (y ∷ xs) fill rest buf x hn ho hb hl h p =
      let want : offset - n ≡ length (y ∷ xs) = omega arith in
      let bytes : Bytes = (r.read x (offset - n)).0 in
      let x1 : S = (r.read x (offset - n)).2 in
      let k : ℕ = length bytes in
      let k_le : k ≤ length (y ∷ xs) = omega (arith, law.within x (offset - n)) in
      let waiting : pending x ≢ [] = λ e. cc in
      let k_pos : 0 < k = law.some_bytes x (offset - n) (omega arith) waiting in
      let fine : (r.read x (offset - n)).1 ≡ none = law.no_error x (offset - n) waiting in
      let (left, cut) =
        split-front bytes (pending x1) (y ∷ xs) rest (law.front x (offset - n) ∙ p) k_le in
      let xs' : Bytes = drop k (y ∷ xs) in
      let fill' : Bytes = drop k fill in
      let room : offset ≤ length buf = omega (arith, ap length hb, length-append front fill) in
      let kept : length (patch n bytes buf) ≡ length buf = length-patch n bytes buf (omega arith) in
      let patched : patch n bytes buf ≡ (front ++ bytes) ++ fill' =
        ap (patch n bytes) hb
        ∙ ap (λ m. patch m bytes (front ++ fill)) hn
        ∙ patch-append front bytes fill
        ∙ sym (append_assoc front bytes fill') in
      elim (ℕ_discrete (n + k) offset) [
        | yes last ↦
            let xs_done : xs' ≡ [] = drop_all k (y ∷ xs) (omega arith) in
            let whole : bytes ≡ y ∷ xs = sym (cut ∙ ap (◌++◌ bytes) xs_done ∙ append-nil bytes) in
            let is_n : offset ≡ length (front ++ bytes) =
              omega (arith, length-append front bytes) in
            subst (λ t. ReadsChunk t rest (length buf) (read_loop r (suc fuel) offset n buf x))
              (ap (◌++◌ front) whole)
              (
                patch n bytes buf,
                x1,
                last_round r fuel offset n buf x (omega arith) room last fine
                    ∙ ap (λ m. (ok (m, none), patch n bytes buf, x1)) is_n,
                ap (take (length (front ++ bytes))) patched
                    ∙ take-append (length (front ++ bytes)) (front ++ bytes) fill' refl,
                kept,
                left ∙ ap (λ t. t ++ rest) xs_done,
              )
        | no more ↦
            let chunk : (front ++ bytes) ++ xs' ≡ front ++ (y ∷ xs) =
              append_assoc front bytes xs' ∙ ap (◌++◌ front) (sym cut) in
            rw (next_round r fuel offset n buf x (omega arith) room more fine) (
              later chunk kept (
                read_loop-ReadsChunk fuel offset (n + k) (front ++ bytes) xs' fill' rest
                  (patch n bytes buf) x1 (omega (arith, length-append front bytes))
                  (omega (arith, length-drop k (y ∷ xs))) patched
                  (omega (arith, length-drop k (y ∷ xs), length-drop k fill))
                  (omega (arith, length-drop k (y ∷ xs))) left))
      ]

  -- A chunk at the front of what is to come is read into the front of a buffer that has room.
  pub read_chunk :
      (fuel : ℕ) (chunk rest buf : Bytes) (x : S)
      → length chunk ≤ length buf
      → length chunk < fuel
      → pending x ≡ chunk ++ rest
      → ReadsChunk chunk rest (length buf) (read_loop r fuel (length chunk) 0 buf x)
  read_chunk fuel chunk rest buf x room h p =
      read_loop-ReadsChunk fuel (length chunk) 0 [] chunk buf rest buf x refl (omega arith) refl
        room h p
