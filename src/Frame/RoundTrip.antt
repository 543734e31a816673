-- ===== src/Frame/RoundTrip.antt =====
-- Decode reads back what Encode wrote, from any reliable stream, however its reads cut the body.
use go_wirenet.Base.{
  ℕ, zero, suc, ◌+◌, ◌-◌, ◌^◌, ◌≤◌, ◌<◌, ◌≡◌, ◌≢◌, refl, sym, ap, subst, ◌∙◌, none, [], ◌∷◌, ◌++◌,
  append_assoc, append-nil, arith, Bytes, length, take, drop, patch, replicate, length-append,
  length-drop, length-replicate, ==_iff, split-front, append-cancel, patch-append, put_uint32,
  uint32, nil_of_length, drop_all,
}
use native.Mathlib.Decide.{ℕ_discrete}
use go_wirenet.Go.{Go, ok}
use go_wirenet.Io.{Reader, Delivers}
use go_wirenet.Frame.Format.{header, frame_bytes}
use go_wirenet.Frame.Decoder.{read_body, decode_body, decode_new}
use go_wirenet.Frame.Shape.{decode_new_whole}

-- The lengths in an encoded header.
pub header_lengths :
    (t cl pl : ℕ)
    → cl < 2 ^ 32
    → pl < 2 ^ 32
    → (uint32 (take 4 (drop 4 (header t cl pl))) ≡ cl)
      × (uint32 (take 4 (drop 8 (header t cl pl))) ≡ pl)
      × (length (header t cl pl) ≡ 12)
unfolding put_uint32 uint32
header_lengths t cl pl hc hp = (omega arith, omega arith, refl)

pub patch-all :
    (n : ℕ) (bytes : Bytes) (z : ℕ) → length bytes ≡ n → patch 0 bytes (replicate n z) ≡ bytes
patch-all n bytes z h =
    ap (◌++◌ bytes)
      (drop_all (0 + length bytes) (replicate n z) (omega (arith, length-replicate n z)))
    ∙ append-nil bytes

-- The rounds of the body's loop.
module _ {S : Type 0} (r : Reader S) (fuel fl n : ℕ) (buf : Bytes) (s : S) where
  abbrev pub got : Bytes
  got = (r.read s (length buf - n)).0

  abbrev pub after : S
  after = (r.read s (length buf - n)).2

  last_round :
      n < fl
      → n ≤ length buf
      → n + length got ≡ fl
      → read_body r (suc fuel) fl n buf s ≡ (ok tt, patch n got buf, after)
  unfolding read_body
  last_round h k e = ground arith

  pub next_round :
      n < fl
      → n ≤ length buf
      → n + length got ≢ fl
      → 0 < length got
      → (r.read s (length buf - n)).1 ≡ none
      → read_body r (suc fuel) fl n buf s
        ≡ read_body r fuel fl (n + length got) (patch n got buf) after
  unfolding read_body
  next_round h k e m q = ground arith

module _ {S : Type 0} (r : Reader S) {pending : S → Bytes} (law : Delivers r pending) where
  abbrev Reads : Bytes → Bytes → Go (Unit {0}) × Bytes × S → Type 0
  Reads buf rest x = (s' : S) × (x ≡ (ok tt, buf, s')) × (pending s' ≡ rest)

  read_body-Reads :
      (fuel fl n : ℕ) (front xs fill rest buf : Bytes) (s : S)
      → n ≡ length front
      → fl ≡ n + length xs
      → buf ≡ front ++ fill
      → length fill ≡ length xs
      → length xs < fuel
      → pending s ≡ xs ++ rest
      → Reads (front ++ xs) rest (read_body r fuel fl n buf s)
  unfolding read_body
  read_body-Reads zero fl n front xs fill rest buf s hn hf hb hl h p = absurd (omega arith)
  read_body-Reads (suc fuel) fl n front [] fill rest buf s hn hf hb hl h p =
      let none_left : fill ≡ [] = nil_of_length fill (omega arith) in (s, ground arith, p)
  read_body-Reads (suc fuel) fl n front (x ∷ xs) fill rest buf s hn hf hb hl h p =
      let bytes : Bytes = (r.read s (length buf - n)).0 in
      let s1 : S = (r.read s (length buf - n)).2 in
      let room : length buf - n ≡ length (x ∷ xs) =
        omega (arith, ap length hb, length-append front fill) in
      let k : ℕ = length bytes in
      let k_le : k ≤ length (x ∷ xs) = omega (arith, law.within s (length buf - n)) in
      let waiting : pending s ≢ [] = λ e. cc in
      let k_pos : 0 < k = law.some_bytes s (length buf - n) (omega arith) waiting in
      let no_err : (r.read s (length buf - n)).1 ≡ none = law.no_error s (length buf - n) waiting in
      let (left, cut) =
        split-front bytes (pending s1) (x ∷ xs) rest (law.front s (length buf - n) ∙ p) k_le in
      let xs' : Bytes = drop k (x ∷ xs) in
      let fill' : Bytes = drop k fill in
      let patched : patch n bytes buf ≡ front ++ (bytes ++ fill') =
        ap (patch n bytes) hb
        ∙ ap (λ m. patch m bytes (front ++ fill)) hn
        ∙ patch-append front bytes fill in
      let all : front ++ (bytes ++ xs') ≡ front ++ (x ∷ xs) = ap (◌++◌ front) (sym cut) in
      elim (ℕ_discrete (n + k) fl) [
        | yes last ↦
            let xs_done : xs' ≡ [] = drop_all k (x ∷ xs) (omega arith) in
            let fill_done : fill' ≡ [] = drop_all k fill (omega arith) in
            (
              s1,
              last_round r fuel fl n buf s (omega arith) (omega arith) last
                  ∙ ap (λ b. (ok tt, b, s1))
                      (patched ∙ ap (λ t. front ++ (bytes ++ t)) (fill_done ∙ sym xs_done) ∙ all),
              left ∙ ap (λ t. t ++ rest) xs_done,
            )
        | no more ↦
            rw (next_round r fuel fl n buf s (omega arith) (omega arith) more k_pos no_err) (
              subst (λ b. Reads b rest (read_body r fuel fl (n + k) (patch n bytes buf) s1))
                (append_assoc front bytes xs' ∙ all)
                (read_body-Reads fuel fl (n + k) (front ++ bytes) xs' fill' rest (patch n bytes buf)
                  s1 (omega (arith, length-append front bytes))
                  (omega (arith, length-drop k (x ∷ xs)))
                  (patched ∙ sym (append_assoc front bytes fill'))
                  (omega (arith, length-drop k (x ∷ xs), length-drop k fill))
                  (omega (arith, length-drop k (x ∷ xs))) left))
      ]

  -- The body that was announced is read, and no byte behind it.
  read_body_all :
      (xs rest : Bytes) (s : S)
      → pending s ≡ xs ++ rest
      → Reads xs rest (read_body r (suc (length xs)) (length xs) 0 (replicate (length xs) 0) s)
  read_body_all xs rest s p =
      read_body-Reads (suc (length xs)) (length xs) 0 [] xs (replicate (length xs) 0) rest
        (replicate (length xs) 0) s refl (omega arith) refl (length-replicate (length xs) 0)
        (omega arith) p

  decode_body_all :
      (hdr xs rest : Bytes) (s : S)
      → uint32 (take 4 (drop 4 hdr)) + uint32 (take 4 (drop 8 hdr)) ≡ length xs
      → pending s ≡ xs ++ rest
      → ((decode_body r hdr none s).0 ≡ ok (hdr ++ xs))
        × (pending (decode_body r hdr none s).2 ≡ rest)
  unfolding decode_body
  decode_body_all hdr xs rest s e p =
      let (s', ran, left) = read_body_all xs rest s p in rw (e, ran) (refl, left)

  -- From a stream that starts with an encoded frame, a new decoder returns that frame and leaves
  -- what follows it, whatever the lengths of the reads of the body.
  pub decode_new-frame_bytes :
      (t : ℕ) (cmd body rest : Bytes) (s : S)
      → length cmd < 2 ^ 32
      → length body < 2 ^ 32
      → pending s ≡ frame_bytes t cmd body ++ rest
      → ((decode_new r s).0 ≡ ok (frame_bytes t cmd body)) × (pending (decode_new r s).1 ≡ rest)
  decode_new-frame_bytes t cmd body rest s hc hb p =
      let hdr : Bytes = header t (length cmd) (length body) in
      let bytes : Bytes = (r.read s 12).0 in
      let s1 : S = (r.read s 12).2 in
      let p' : pending s ≡ hdr ++ ((cmd ++ body) ++ rest) =
        p ∙ append_assoc hdr (cmd ++ body) rest in
      let (cl, pl, h12) = header_lengths t (length cmd) (length body) hc hb in
      let at_least : 12 ≤ length (pending s) =
        omega (arith, ap length p', length-append hdr ((cmd ++ body) ++ rest), h12) in
      let whole : length bytes ≡ 12 = law.whole_header s 12 (omega arith) at_least in
      let (is_hdr, left) =
        append-cancel bytes hdr (pending s1) ((cmd ++ body) ++ rest) (whole ∙ sym h12)
          (law.front s 12 ∙ p') in
      let filled : patch 0 bytes (replicate 12 0) ≡ hdr = patch-all 12 bytes 0 whole ∙ is_hdr in
      let (is_frame, left') =
        decode_body_all hdr (cmd ++ body) rest s1 (omega (arith, cl, pl, length-append cmd body))
          left in
      rw
        (
          decode_new_whole r s (law.no_error s 12 (λ e. absurd (omega (arith, ap length e))))
              ((==_iff (length bytes) 12).1 whole),
          filled,
        )
        (is_frame, left')
