-- ===== src/Frame/Apart.antt =====
-- What the frames' reads and writes leave alone: a part of the world that each single read, or each
-- single write, leaves as it is.
use go_wirenet.Base.{
  ℕ, zero, suc, ◌+◌, ◌-◌, ◌≡◌, refl, ap, ◌∙◌, Option, none, some, [], ◌∷◌, arith, Bytes, length,
  take, drop, patch, replicate, uint32,
}
use go_wirenet.Go.{Go, ok, err, panic, stuck}
use go_wirenet.Io.{Reader, Writer}
use go_wirenet.Io.Copy.{Copied, copy_loop, copy_n, settle}
use go_wirenet.Frame.Format.{header_length, frame_bytes}
use go_wirenet.Frame.Decoder.{read_body, framed, buffer, decode_body, decode_new}
use go_wirenet.Frame.Encoder.{finish, encode_new}

module _ {S A : Type 0} (f : S → A) (r : Reader S)
    (keeps : (s : S) (n : ℕ) → f (r.read s n).2 ≡ f s) where
  read_body_apart : (fuel fl n : ℕ) (buf : Bytes) (s : S) → f (read_body r fuel fl n buf s).2 ≡ f s
  unfolding read_body
  read_body_apart zero fl n buf s = refl
  read_body_apart (suc fuel) fl n buf s =
      let bytes = (r.read s (length buf - n)).0 in
      ground (
        arith,
        keeps s (length buf - n),
        read_body_apart fuel fl (n + length bytes) (patch n bytes buf)
            (r.read s (length buf - n)).2,
      )

  framed_apart : (hdr : Bytes) (g : Go (Unit {0}) × Bytes × S) → (framed r hdr g).2 ≡ g.2
  framed_apart hdr (ok _, buf, s) = refl
  framed_apart hdr (err e, buf, s) = refl
  framed_apart hdr (panic, buf, s) = refl
  framed_apart hdr (stuck, buf, s) = refl

  decode_body_apart :
      (hdr : Bytes) (buf : Option Bytes) (s : S) → f (decode_body r hdr buf s).2 ≡ f s
  unfolding decode_body
  decode_body_apart hdr buf s =
      let fl = uint32 (take 4 (drop 4 hdr)) + uint32 (take 4 (drop 8 hdr)) in
      ap f (framed_apart hdr (read_body r (suc fl) fl 0 (buffer r buf fl) s))
      ∙ read_body_apart (suc fl) fl 0 (buffer r buf fl) s

  pub decode_new_apart : (s : S) → f (decode_new r s).1 ≡ f s
  unfolding decode_new
  decode_new_apart s =
      let s' = (r.read s header_length).2 in
      let hdr = patch 0 (r.read s header_length).0 (replicate header_length 0) in
      ground (arith, keeps s header_length, decode_body_apart hdr none s')

module _ {S A : Type 0} (f : S → A) (w : Writer S)
    (keeps : (s : S) (p : Bytes) → f (w.write s p).2 ≡ f s) where
  copy_loop_apart :
      (size fuel : ℕ) (rest : Bytes) (written : ℕ) (s : S)
      → f (copy_loop w size fuel rest written s).1 ≡ f s
  unfolding copy_loop
  copy_loop_apart size fuel [] written s = refl
  copy_loop_apart size zero (x ∷ xs) written s = refl
  copy_loop_apart size (suc fuel) (x ∷ xs) written s =
      let c = take size (x ∷ xs) in
      ground (
        arith,
        keeps s c,
        copy_loop_apart size fuel (drop size (x ∷ xs)) (written + (w.write s c).0) (w.write s c).2,
      )

  settle_apart : (n : ℕ) (after : Bytes) (g : Go Copied × S) → (settle n after g).1 ≡ g.1
  settle_apart n after (ok (k, e, u), s) = ground arith
  settle_apart n after (err e, s) = refl
  settle_apart n after (panic, s) = refl
  settle_apart n after (stuck, s) = refl

  finish_apart : (n : ℕ) (g : Go Copied × S) → (finish n g).2 ≡ g.1
  finish_apart n (ok (k, none, u), s) = ground arith
  finish_apart n (ok (k, some e, u), s) = refl
  finish_apart n (err e, s) = refl
  finish_apart n (panic, s) = refl
  finish_apart n (stuck, s) = refl

  pub encode_new_apart : (t : ℕ) (cmd body : Bytes) (s : S) → f (encode_new w t cmd body s).1 ≡ f s
  unfolding encode_new copy_n
  encode_new_apart t cmd body s =
      let n = length cmd + length body + header_length in
      let xs = frame_bytes t cmd body in
      let c = copy_loop w 32768 (length (take n xs)) (take n xs) 0 s in
      ap f (finish_apart n (settle n (drop n xs) c))
      ∙ ap f (settle_apart n (drop n xs) c)
      ∙ copy_loop_apart 32768 (length (take n xs)) (take n xs) 0 s
