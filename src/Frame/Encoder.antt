-- ===== src/Frame/Encoder.antt =====
-- frameEncoder (frame.go).
use go_wirenet.Base.{ℕ, ◌+◌, none, some, [], ◌++◌, Bytes, length, ◌==◌, if◌then◌else◌}
use go_wirenet.Go.{Go, ok, err, panic, stuck, short_write}
use go_wirenet.Io.{Writer}
use go_wirenet.Io.Copy.{copy_n, Copied}
use go_wirenet.Frame.Format.{header_length, frame_bytes}

-- `buf`, which an `Encode` that failed leaves with what it has not sent.
pub record FrameEncoder : Type 0 where
  pub buf : Bytes

abbrev pub new_encoder : FrameEncoder
new_encoder = record { buf = [] }

-- What `Encode` makes of the results of io.CopyN.
abbrev pub finish {ℓ} : {S : Type ℓ} → ℕ → Go Copied × S → Go (Unit {0}) × FrameEncoder × S
finish tl (ok (written, some e, buf), s) = (err e, record { buf = buf }, s)
finish tl (ok (written, none, buf), s) =
    (if written == tl then ok tt else err short_write, record { buf = buf }, s)
finish tl (err e, s) = (err e, new_encoder, s)
finish tl (panic, s) = (panic, new_encoder, s)
finish tl (stuck, s) = (stuck, new_encoder, s)

module _ {S : Type 0} (w : Writer S) where
  unfoldable pub encode : ℕ → Bytes → Bytes → FrameEncoder → S → Go (Unit {0}) × FrameEncoder × S
  encode typ cmd payload c s =
      let tl = length cmd + length payload + header_length in
      finish tl (copy_n w (c.buf ++ frame_bytes typ cmd payload) tl s)

  -- `newEncoder(w).Encode(typ, cmd, payload)`
  unfoldable pub encode_new : ℕ → Bytes → Bytes → S → Go (Unit {0}) × S
  unfolding encode
  encode_new typ cmd payload s = let (r, _, s') = encode typ cmd payload new_encoder s in (r, s')
