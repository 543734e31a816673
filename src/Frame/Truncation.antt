-- ===== src/Frame/Truncation.antt =====
-- Decode on a connection that ends within a frame's body.
use go_wirenet.Base.{
  ℕ, zero, suc, ◌+◌, ◌-◌, ◌^◌, ◌≤◌, ◌<◌, ◌≡◌, ◌≢◌, refl, sym, ap, ◌∙◌, none, [], ◌∷◌, ◌++◌,
  append_assoc, arith, Bytes, length, take, drop, patch, replicate, length-append, drop-drop,
  length-drop, length-replicate, ==_iff, append-cancel, patch-append, uint32, nil_of_length,
}
use go_wirenet.Go.{ok}
use go_wirenet.Io.{Reader, Delivers}
use go_wirenet.Frame.Format.{header}
use go_wirenet.Frame.Decoder.{read_body, decode_body, decode_new}
use go_wirenet.Frame.Shape.{decode_new_whole}
use go_wirenet.Frame.RoundTrip.{got, after, next_round, header_lengths, patch-all}

empty_round :
    {S : Type 0} (r : Reader S) (fuel fl n : ℕ) (buf : Bytes) (s : S)
    → n < fl
    → n ≤ length buf
    → length (got r fuel fl n buf s) ≡ 0
    → read_body r (suc fuel) fl n buf s
      ≡ (ok tt, patch n (got r fuel fl n buf s) buf, after r fuel fl n buf s)
unfolding read_body
empty_round r fuel fl n buf s h k e = ground arith

pub drop-replicate : (m n z : ℕ) → drop m (replicate {A = ℕ} n z) ≡ replicate (n - m) z
drop-replicate zero n z = ap (λ k. replicate k z) (let e : n ≡ n - 0 = omega arith in e)
drop-replicate (suc m) zero z = ap (λ k. replicate k z) (let e : 0 ≡ 0 - suc m = omega arith in e)
drop-replicate (suc m) (suc n) z =
    drop-replicate m n z
    ∙ ap (λ k. replicate k z) (let e : n - m ≡ suc n - suc m = omega arith in e)

module _ {S : Type 0} (r : Reader S) {pending : S → Bytes} (law : Delivers r pending) where
  -- The loop ends where the stream does, and leaves the rest of the buffer as it was.
  read_body_cut :
      (fuel fl n : ℕ) (front xs fill buf : Bytes) (s : S)
      → n ≡ length front
      → n + length xs < fl
      → buf ≡ front ++ fill
      → length xs ≤ length fill
      → length xs < fuel
      → pending s ≡ xs
      → (s' : S) × (read_body r fuel fl n buf s
          ≡ (ok tt, front ++ (xs ++ drop (length xs) fill), s'))
  read_body_cut zero fl n front xs fill buf s hn hf hb hl h p = absurd (omega arith)
  read_body_cut (suc fuel) fl n front [] fill buf s hn hf hb hl h p =
      let bytes : Bytes = (r.read s (length buf - n)).0 in
      let s1 : S = (r.read s (length buf - n)).2 in
      let none_left : length bytes ≡ 0 =
        omega
          (arith, length-append bytes (pending s1), ap length (law.front s (length buf - n) ∙ p)) in
      let patched : patch n bytes buf ≡ front ++ (bytes ++ drop (length bytes) fill) =
        ap (patch n bytes) hb
        ∙ ap (λ m. patch m bytes (front ++ fill)) hn
        ∙ patch-append front bytes fill in
      (
        s1,
        empty_round r fuel fl n buf s (omega arith)
              (omega (arith, ap length hb, length-append front fill)) none_left
            ∙ ap (λ b. (ok tt, b, s1))
                (patched
                  ∙ ap (λ b. front ++ (b ++ drop (length b) fill)) (nil_of_length bytes none_left)),
      )
  read_body_cut (suc fuel) fl n front (x ∷ xs) fill buf s hn hf hb hl h p =
      let bytes : Bytes = (r.read s (length buf - n)).0 in
      let s1 : S = (r.read s (length buf - n)).2 in
      let room : n + length fill ≡ length buf =
        omega (arith, ap length hb, length-append front fill) in
      let k : ℕ = length bytes in
      let waiting : pending s ≢ [] = λ e. cc in
      let total : k + length (pending s1) ≡ length (x ∷ xs) =
        sym (length-append bytes (pending s1)) ∙ ap length (law.front s (length buf - n) ∙ p) in
      let k_pos : 0 < k = law.some_bytes s (length buf - n) (omega arith) waiting in
      let no_err : (r.read s (length buf - n)).1 ≡ none = law.no_error s (length buf - n) waiting in
      let cut : bytes ++ pending s1 ≡ x ∷ xs = law.front s (length buf - n) ∙ p in
      let xs' : Bytes = pending s1 in
      let fill' : Bytes = drop k fill in
      let patched : patch n bytes buf ≡ front ++ (bytes ++ fill') =
        ap (patch n bytes) hb
        ∙ ap (λ m. patch m bytes (front ++ fill)) hn
        ∙ patch-append front bytes fill in
      let (s', ran) =
        read_body_cut fuel fl (n + k) (front ++ bytes) xs' fill' (patch n bytes buf) s1
          (omega (arith, length-append front bytes)) (omega arith)
          (patched ∙ sym (append_assoc front bytes fill')) (omega (arith, length-drop k fill))
          (omega arith) refl in
      let left : drop (length xs') fill' ≡ drop (length (x ∷ xs)) fill =
        drop-drop (length xs') k fill ∙ ap (λ m. drop m fill) total in
      (
        s',
        next_round r fuel fl n buf s (omega arith) (omega arith) (omega arith) k_pos no_err
            ∙ ran
            ∙ ap (λ b. (ok tt, b, s'))
                (append_assoc front bytes (xs' ++ drop (length xs') fill')
                  ∙ ap (◌++◌ front) (
                      sym (append_assoc bytes xs' (drop (length xs') fill'))
                      ∙ ap (λ t. t ++ drop (length xs') fill') cut
                      ∙ ap (◌++◌ (x ∷ xs)) left)),
      )

  decode_body_cut :
      (hdr xs : Bytes) (fl : ℕ) (s : S)
      → uint32 (take 4 (drop 4 hdr)) + uint32 (take 4 (drop 8 hdr)) ≡ fl
      → length xs < fl
      → pending s ≡ xs
      → (decode_body r hdr none s).0 ≡ ok (hdr ++ (xs ++ replicate (fl - length xs) 0))
  unfolding decode_body
  decode_body_cut hdr xs fl s e h p =
      let (s', ran) =
        read_body_cut (suc fl) fl 0 [] xs (replicate fl 0) (replicate fl 0) s refl (omega arith)
          refl (omega (arith, length-replicate {A = ℕ} fl 0)) (omega arith) p in
      rw (e, ran) (ap (λ t. ok (hdr ++ (xs ++ t))) (drop-replicate (length xs) fl 0))

  -- A stream that ends within the body that a header announces: Decode returns no error, and a
  -- frame in which zeros stand for the bytes that never came.
  pub decode_new_cut :
      (t cl pl : ℕ) (xs : Bytes) (s : S)
      → cl < 2 ^ 32
      → pl < 2 ^ 32
      → length xs < cl + pl
      → pending s ≡ header t cl pl ++ xs
      → (decode_new r s).0 ≡ ok (header t cl pl ++ (xs ++ replicate (cl + pl - length xs) 0))
  decode_new_cut t cl pl xs s hc hp short p =
      let hdr : Bytes = header t cl pl in
      let bytes : Bytes = (r.read s 12).0 in
      let s1 : S = (r.read s 12).2 in
      let (c, b, h12) = header_lengths t cl pl hc hp in
      let at_least : 12 ≤ length (pending s) =
        omega (arith, ap length p, length-append hdr xs, h12) in
      let whole : length bytes ≡ 12 = law.whole_header s 12 (omega arith) at_least in
      let (is_hdr, left) =
        append-cancel bytes hdr (pending s1) xs (whole ∙ sym h12) (law.front s 12 ∙ p) in
      let filled : patch 0 bytes (replicate 12 0) ≡ hdr = patch-all 12 bytes 0 whole ∙ is_hdr in
      rw
        (
          decode_new_whole r s (law.no_error s 12 (λ e. absurd (omega (arith, ap length e))))
              ((==_iff (length bytes) 12).1 whole),
          filled,
        )
        (decode_body_cut hdr xs (cl + pl) s1 (omega (arith, c, b)) short left)
