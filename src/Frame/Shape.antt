-- ===== src/Frame/Shape.antt =====
-- What Decode returns, whatever the connection does.
use go_wirenet.Base.{
  ℕ, zero, suc, ◌+◌, ◌-◌, ◌≤◌, ◌<◌, ◌≡◌, ◌≢◌, refl, true, false, some, none, ◌++◌, arith, Bytes,
  length, take, drop, patch, replicate, ◌==◌, length-append, length-patch, length-replicate,
  length-take, length-drop, uint32, Option-cases, ap, ◌∙◌, slice-append, slice-some, take-take-drop,
  inl, inr, Bool-cases,
}
use Prim.Native.Nat.{zero-le}
use go_wirenet.Go.{Error, short_buffer, Go, ok, err, panic, stuck}
use go_wirenet.Io.{Reader, IsReader}
use go_wirenet.Frame.Format.{Frame, command, payload, command_len, payload_len}
use go_wirenet.Frame.Decoder.{framed, read_body, decode_body, decode_new}

-- The lengths in the header are those of the two parts that follow it.
pub record IsFrame (f : Frame) (cl pl : ℕ) : Type 0 where
  pub commands : command_len f ≡ some cl
  pub payloads : payload_len f ≡ some pl
  pub whole : length f ≡ 12 + cl + pl

-- A run of Decode that ends: an error, or a frame.
abbrev pub IsDecoded : Go Frame → Type 0
IsDecoded (ok f) = (cl : ℕ) × (pl : ℕ) × IsFrame f cl pl
IsDecoded (err e) = Unit
IsDecoded panic = ⊥
IsDecoded stuck = ⊥

-- A header of 12 bytes before as many bytes as it tells of.
header-IsFrame :
    (hdr body : Bytes) (cl pl : ℕ)
    → length hdr ≡ 12
    → uint32 (take 4 (drop 4 hdr)) ≡ cl
    → uint32 (take 4 (drop 8 hdr)) ≡ pl
    → length body ≡ cl + pl
    → IsFrame (hdr ++ body) cl pl
unfolding command_len payload_len
header-IsFrame hdr body cl pl h c p n = record {
  commands = rw (slice-append 4 8 hdr body (omega arith) (omega arith)) (ap some c);
  payloads = rw (slice-append 8 12 hdr body (omega arith) (omega arith)) (ap some p);
  whole = omega (arith, length-append hdr body);
}

-- Then neither accessor panics, and the frame is its header, its command and its payload.
pub frame_parts :
    (f : Frame) {cl pl : ℕ}
    → IsFrame f cl pl
    → (c : Bytes) × (p : Bytes) × (command f ≡ some c)
      × (payload f ≡ some p)
      × (length c ≡ cl)
      × (length p ≡ pl)
      × (f ≡ take 12 f ++ (c ++ p))
unfolding command payload
frame_parts f {cl} {pl} h =
    let n : ℕ = length f - pl in
    let c : Bytes = take (n - 12) (drop 12 f) in
    let p : Bytes = take (length f - n) (drop n f) in
    (
      c,
      p,
      ground (arith, h.payloads, h.whole, slice-some 12 n f),
      ground (arith, h.payloads, h.whole, slice-some n (length f) f),
      omega (arith, h.whole, length-take (n - 12) (drop 12 f), length-drop 12 f),
      omega (arith, h.whole, length-take (length f - n) (drop n f), length-drop n f),
      take-take-drop 12 n f (omega (arith, h.whole)) (omega arith),
    )

rounds : (n : ℕ) → n - 0 < suc n
rounds n = omega arith

-- The branches of Decode on a new decoder.
module _ {S : Type 0} (r : Reader S) (s : S) where
  decode_new_failed : (x : Error) → (r.read s 12).1 ≡ some x → (decode_new r s).0 ≡ err x
  unfolding decode_new
  decode_new_failed x e = ground arith

  decode_new_short :
      (r.read s 12).1 ≡ none
      → (length (r.read s 12).0 == 12) ≡ false
      → (decode_new r s).0 ≡ err short_buffer
  unfolding decode_new
  decode_new_short e h = ground arith

  pub decode_new_whole :
      (r.read s 12).1 ≡ none
      → (length (r.read s 12).0 == 12) ≡ true
      → let d = decode_body r (patch 0 (r.read s 12).0 (replicate 12 0)) none (r.read s 12).2 in
        decode_new r s ≡ (d.0, d.2)
  unfolding decode_new
  decode_new_whole e h = ground arith

module _ {S : Type 0} (r : Reader S) (law : IsReader r) where
  -- The loop ends, and its buffer keeps its length.
  read_body_kept :
      (fuel fl n : ℕ) (buf : Bytes) (s : S)
      → fl - n < fuel
      → n ≤ length buf
      → ((read_body r fuel fl n buf s).0 ≢ stuck)
        × ((read_body r fuel fl n buf s).0 ≢ panic)
        × (length (read_body r fuel fl n buf s).1 ≡ length buf)
  unfolding read_body
  read_body_kept zero fl n buf s h k = absurd (omega arith)
  read_body_kept (suc fuel) fl n buf s h k =
      let bytes : Bytes = (r.read s (length buf - n)).0 in
      let s' : S = (r.read s (length buf - n)).2 in
      let fits : n + length bytes ≤ length buf = omega (arith, law.within s (length buf - n)) in
      let kept : length (patch n bytes buf) ≡ length buf = length-patch n bytes buf fits in
      ground (arith, kept, fits, read_body_kept fuel fl (n + length bytes) (patch n bytes buf) s')

  framed-IsDecoded :
      (hdr : Bytes) (cl pl : ℕ) (x : Go (Unit {0}) × Bytes × S)
      → length hdr ≡ 12
      → uint32 (take 4 (drop 4 hdr)) ≡ cl
      → uint32 (take 4 (drop 8 hdr)) ≡ pl
      → (x.0 ≢ stuck) × (x.0 ≢ panic) × (length x.1 ≡ cl + pl)
      → IsDecoded (framed r hdr x).0
  framed-IsDecoded hdr cl pl (ok _, b, s) h c p k = (cl, pl, header-IsFrame hdr b cl pl h c p k.2)
  framed-IsDecoded hdr cl pl (err e, b, s) h c p k = tt
  framed-IsDecoded hdr cl pl (panic, b, s) h c p k = k.1 refl
  framed-IsDecoded hdr cl pl (stuck, b, s) h c p k = k.0 refl

  decode_body-IsDecoded :
      (hdr : Bytes) (s : S) → length hdr ≡ 12 → IsDecoded (decode_body r hdr none s).0
  unfolding decode_body
  decode_body-IsDecoded hdr s h =
      let cl : ℕ = uint32 (take 4 (drop 4 hdr)) in
      let pl : ℕ = uint32 (take 4 (drop 8 hdr)) in
      let zeros : length (replicate (cl + pl) 0) ≡ cl + pl = length-replicate (cl + pl) 0 in
      let (go, safe, kept) =
        read_body_kept (suc (cl + pl)) (cl + pl) 0 (replicate (cl + pl) 0) s (rounds (cl + pl))
          zero-le in
      framed-IsDecoded hdr cl pl _ h refl refl (go, safe, kept ∙ zeros)

  -- On any reader a new decoder ends, does not panic, and what it returns is a frame: its lengths
  -- are those in its header.
  pub decode_new-IsDecoded : (s : S) → IsDecoded (decode_new r s).0
  decode_new-IsDecoded s =
      let bytes : Bytes = (r.read s 12).0 in
      let hdr : Bytes = patch 0 bytes (replicate 12 0) in
      let full : length hdr ≡ 12 =
        length-patch 0 bytes (replicate 12 0) (omega (arith, law.within s 12)) in
      elim (Option-cases (r.read s 12).1) [
        | inr (x, e) ↦ rw (decode_new_failed r s x e) tt
        | inl e ↦ elim (Bool-cases (length bytes == 12)) [
          | inl all ↦
              rw (decode_new_whole r s e all) (decode_body-IsDecoded hdr (r.read s 12).2 full)
          | inr less ↦ rw (decode_new_short r s e less) tt
        ]
      ]
