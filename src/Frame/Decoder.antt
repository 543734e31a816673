-- ===== src/Frame/Decoder.antt =====
-- frameDecoder (frame.go).
use go_wirenet.Base.{
  ℕ, zero, suc, ◌+◌, ◌-◌, ◌||◌, Option, none, some, ◌++◌, Bytes, length, take, drop, patch,
  replicate, uint32, ltb, ◌==◌, if◌then◌else◌,
}
use go_wirenet.Go.{is_eof, short_buffer, Go, ok, err, panic, stuck}
use go_wirenet.Io.{Reader}
use go_wirenet.Frame.Format.{Frame, header_length}

-- `buf` is nil until the first frame; later frames are read into the same buffer.
pub record FrameDecoder : Type 0 where
  pub buf : Option Bytes
  pub hdr : Bytes

abbrev pub new_decoder : FrameDecoder
new_decoder = record { buf = none; hdr = replicate header_length 0 }

module _ {S : Type 0} (r : Reader S) where
  -- `for read < fl { … }`, from `n` bytes read on; a read with no bytes ends it, whatever its error.
  unfoldable pub read_body : ℕ → ℕ → ℕ → Bytes → S → Go (Unit {0}) × Bytes × S
  read_body zero fl n buf s = (stuck, buf, s)
  read_body (suc fuel) fl n buf s =
      let (bytes, re, s') = r.read s (length buf - n) in
      let n' = n + length bytes in
      let buf' = patch n bytes buf in
      let rest = read_body fuel fl n' buf' s' in
      if ltb n fl
      then (if ltb (length buf) n
          then (panic, buf, s)
          else if n' == fl || length bytes == 0
          then (ok tt, buf', s')
          else elim re [
            | none ↦ rest
            | some e ↦ if is_eof e then (ok tt, buf', s') else (err e, buf', s')
          ])
      else (ok tt, buf, s)

  abbrev pub framed : Bytes → Go (Unit {0}) × Bytes × S → Go Frame × FrameDecoder × S
  framed hdr (ok _, buf, s) = (ok (hdr ++ buf), record { buf = some buf; hdr = hdr }, s)
  framed hdr (err e, buf, s) = (err e, record { buf = some buf; hdr = hdr }, s)
  framed hdr (panic, buf, s) = (panic, record { buf = some buf; hdr = hdr }, s)
  framed hdr (stuck, buf, s) = (stuck, record { buf = some buf; hdr = hdr }, s)

  abbrev pub buffer : Option Bytes → ℕ → Bytes
  buffer none n = replicate n 0
  buffer (some buf) n = buf

  -- After a header of 12 bytes. Every round of the loop but the last reads a byte, so `fl + 1`
  -- rounds are enough.
  unfoldable pub decode_body : Bytes → Option Bytes → S → Go Frame × FrameDecoder × S
  decode_body hdr buf s =
      let fl = uint32 (take 4 (drop 4 hdr)) + uint32 (take 4 (drop 8 hdr)) in
      framed hdr (read_body (suc fl) fl 0 (buffer buf fl) s)

  unfoldable pub decode : FrameDecoder → S → Go Frame × FrameDecoder × S
  unfolding decode_body
  decode c s =
      let (bytes, e, s') = r.read s header_length in
      let hdr = patch 0 bytes c.hdr in
      elim e [
        | some x ↦ (err x, record c { hdr = hdr }, s')
        | none ↦
            if length bytes == header_length
            then decode_body hdr c.buf s'
            else (err short_buffer, record c { hdr = hdr }, s')
      ]

  -- `newDecoder(r).Decode()`
  unfoldable pub decode_new : S → Go Frame × S
  unfolding decode
  decode_new s = let (f, _, s') = decode new_decoder s in (f, s')
