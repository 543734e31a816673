-- ===== src/Frame/Fields.antt =====
-- What the accessors of frame.go answer on the frames that Encode lays out.
use go_wirenet.Base.{
  ℕ, ◌+◌, ◌-◌, ◌^◌, ◌<◌, ◌≡◌, refl, sym, ap, ◌∙◌, some, ◌++◌, append_assoc, arith, Bytes, length,
  take, drop, length-append, drop-append, take_all, slice-some, slice-append, put_uint32, uint32,
  slice,
}
use go_wirenet.Frame.Format.{header, frame_bytes, typ, payload_len, body_end, command, payload}

header_words :
    (t cl pl : ℕ)
    → t < 2 ^ 32
    → cl < 2 ^ 32
    → pl < 2 ^ 32
    → (uint32 (take 4 (drop 0 (header t cl pl))) ≡ t)
      × (uint32 (take 4 (drop 8 (header t cl pl))) ≡ pl)
      × (length (header t cl pl) ≡ 12)
unfolding put_uint32 uint32
header_words t cl pl ht hc hp = (omega arith, omega arith, refl)

-- A list's part behind a front, and the part between two.
slice-back :
    (n : ℕ) (xs ys : Bytes) → length xs ≡ n → slice n (length (xs ++ ys)) (xs ++ ys) ≡ some ys
slice-back n xs ys h =
    slice-some n (length (xs ++ ys)) (xs ++ ys) (omega (arith, length-append xs ys)) (omega arith)
    ∙ ap some (
        ap (take (length (xs ++ ys) - n)) (drop-append n xs ys h)
        ∙ take_all (length (xs ++ ys) - n) ys (omega (arith, length-append xs ys)))

slice-middle :
    (m n : ℕ) (xs ys zs : Bytes)
    → length xs ≡ m
    → m + length ys ≡ n
    → slice m n ((xs ++ ys) ++ zs) ≡ some ys
slice-middle m n xs ys zs h k =
    slice-append m n (xs ++ ys) zs (omega arith) (omega (arith, length-append xs ys))
    ∙ ap some (ap (take (n - m)) (drop-append m xs ys h) ∙ take_all (n - m) ys (omega arith))

-- Both accessors slice where the payload's length says.
accessors :
    (f : Bytes) (pl n : ℕ)
    → payload_len f ≡ some pl
    → body_end f pl ≡ some n
    → (command f ≡ slice 12 n f) × (payload f ≡ slice n (length f) f)
unfolding command payload
accessors f pl n h k = (ground arith, ground arith)

module _ (t : ℕ) (cmd body : Bytes) (ht : t < 2 ^ 32) (hc : length cmd < 2 ^ 32)
    (hb : length body < 2 ^ 32) where
  abbrev hdr : Bytes
  hdr = header t (length cmd) (length body)

  typ-frame_bytes : typ (frame_bytes t cmd body) ≡ some t
  unfolding typ
  typ-frame_bytes =
      let (w, _, n) = header_words t (length cmd) (length body) ht hc hb in
      rw (slice-append 0 4 hdr (cmd ++ body) (omega arith) (omega arith)) (ap some w)

  abbrev frame : Bytes
  frame = frame_bytes t cmd body

  payload_len-frame_bytes : payload_len frame ≡ some (length body)
  unfolding payload_len
  payload_len-frame_bytes =
      let (_, w, n) = header_words t (length cmd) (length body) ht hc hb in
      rw (slice-append 8 12 hdr (cmd ++ body) (omega arith) (omega arith)) (ap some w)

  length-frame : length frame ≡ 12 + length cmd + length body
  length-frame =
      let (_, _, n) = header_words t (length cmd) (length body) ht hc hb in
      omega (arith, length-append hdr (cmd ++ body), length-append cmd body)

  body_end-frame_bytes : body_end frame (length body) ≡ some (12 + length cmd)
  unfolding body_end
  body_end-frame_bytes = ground (arith, length-frame)

  -- The type, the command and the payload of a frame that Encode lays out are what it was given.
  pub frame_fields : (typ frame ≡ some t) × (command frame ≡ some cmd) × (payload frame ≡ some body)
  frame_fields =
      let (_, _, n) = header_words t (length cmd) (length body) ht hc hb in
      let split : (hdr ++ cmd) ++ body ≡ frame = append_assoc hdr cmd body in
      let front : length (hdr ++ cmd) ≡ 12 + length cmd = omega (arith, length-append hdr cmd) in
      let (on_command, on_payload) =
        accessors frame (length body) (12 + length cmd) payload_len-frame_bytes
          body_end-frame_bytes in
      (
        typ-frame_bytes,
        on_command
            ∙ ap (slice 12 (12 + length cmd)) (sym split)
            ∙ slice-middle 12 (12 + length cmd) hdr cmd body n refl,
        on_payload
            ∙ ap (λ (f : Bytes). slice (12 + length cmd) (length f) f) (sym split)
            ∙ slice-back (12 + length cmd) (hdr ++ cmd) body front,
      )
