-- ===== src/Frame/Format.antt =====
-- The layout of a frame (frame.go): three little-endian words, a command and a payload.
-- An accessor that slices out of range panics, which is `none` here.
use mathlib.Core.Option
use go_wirenet.Base.{
  ℕ, ◌+◌, ◌-◌, ◌^◌, ◌%◌, Bool, Option, none, some, ◌++◌, Bytes, length, slice, put_uint32, uint32,
  ltb, ◌==◌, if◌then◌else◌,
}

abbrev pub init_frame_typ : ℕ
init_frame_typ = 0x2

abbrev pub err_frame_typ : ℕ
err_frame_typ = 0x4

abbrev pub recv_frame_typ : ℕ
recv_frame_typ = 0x8

abbrev pub perm_frame_typ : ℕ
perm_frame_typ = 0x16

abbrev pub open_sess_typ : ℕ
open_sess_typ = 0x32

abbrev pub conf_sess_type : ℕ
conf_sess_type = 0x64

abbrev pub hdr_len : ℕ
hdr_len = 4

abbrev pub header_length : ℕ
header_length = hdr_len + (hdr_len + hdr_len)

abbrev pub Frame : Type 0
Frame = Bytes

unfoldable pub typ : Frame → Option ℕ
typ f = Option.map uint32 (slice 0 4 f)

unfoldable pub command_len : Frame → Option ℕ
command_len f = Option.map uint32 (slice 4 8 f)

unfoldable pub payload_len : Frame → Option ℕ
payload_len f = Option.map uint32 (slice 8 12 f)

abbrev has_typ : ℕ → Frame → Option Bool
has_typ t f = Option.map (λ u. u == t) (typ f)

unfoldable pub is_init_frame : Frame → Option Bool
is_init_frame f = has_typ init_frame_typ f

unfoldable pub is_err_frame : Frame → Option Bool
is_err_frame f = has_typ err_frame_typ f

unfoldable pub is_recv_frame : Frame → Option Bool
is_recv_frame f = has_typ recv_frame_typ f

unfoldable pub is_perm_frame : Frame → Option Bool
is_perm_frame f = has_typ perm_frame_typ f

-- `len(f)-f.PayloadLen()`, which is negative, and panics as a bound, for a frame that is too short.
unfoldable pub body_end : Frame → ℕ → Option ℕ
body_end f pl = if ltb (length f) pl then none else some (length f - pl)

unfoldable pub command : Frame → Option Bytes
unfolding body_end
command f = elim (payload_len f) [
  | none ↦ none
  | some pl ↦ elim (body_end f pl) [ none ↦ none | some n ↦ slice header_length n f ]
]

unfoldable pub payload : Frame → Option Bytes
unfolding body_end
payload f = elim (payload_len f) [
  | none ↦ none
  | some pl ↦ elim (body_end f pl) [ none ↦ none | some n ↦ slice n (length f) f ]
]

-- What `Encode` writes: `uint32(len)` keeps the low 32 bits of a length.
abbrev pub header : ℕ → ℕ → ℕ → Bytes
header t cl pl = put_uint32 t ++ (put_uint32 (cl % 2 ^ 32) ++ put_uint32 (pl % 2 ^ 32))

abbrev pub frame_bytes : ℕ → Bytes → Bytes → Frame
frame_bytes t cmd body = header t (length cmd) (length body) ++ (cmd ++ body)
