-- ===== src/Stream/Defs.antt =====
-- The stream's fields, its header words and its read loop (stream.go).
use go_wirenet.Base.{
  ℕ, zero, suc, ◌+◌, ◌-◌, ◌%◌, ◌^◌, Bool, false, Option, none, some, Bytes, length, patch,
  replicate, put_uint32, uint32, ltb, ◌==◌, if◌then◌else◌,
}
use go_wirenet.Go.{Error, eof, short_buffer, is_eof, Go, ok, panic, stuck}
use go_wirenet.Io.{Reader, Writer}
use go_wirenet.Frame.Format.{hdr_len}

-- `BufSize`
abbrev pub buf_size : ℕ
buf_size = 2 ^ 10

-- The end marker: the word 0.
abbrev pub eof_word : ℕ
eof_word = 0

pub record Stream : Type 0 where
  pub id : Bytes
  pub name : Bytes
  pub closed : Bool
  pub buf : Bytes
  pub hdr : Bytes

-- The value that `openStream` builds; `uuid.New()` gives the id.
unfoldable pub new_stream : Bytes → Bytes → Stream
new_stream id name = record {
  id = id;
  name = name;
  closed = false;
  buf = replicate buf_size 0;
  hdr = replicate hdr_len 0;
}

-- The slices `s.hdr[:]` and `s.buf[:]` are what they were.
unfoldable pub reset_buffers : Stream → Stream
reset_buffers s = if length s.buf == buf_size then s else record s { buf = replicate buf_size 0 }

module _ {S : Type 0} (w : Writer S) where
  -- `binary.Write(s.conn, binary.LittleEndian, uint32(v))`: one write, whose count is dropped.
  unfoldable pub write_word : ℕ → S → Option Error × S
  write_word v s = let (_, e, s') = w.write s (put_uint32 (v % 2 ^ 32)) in (e, s')

  unfoldable pub write_eof : S → Option Error × S
  unfolding write_word
  write_eof = write_word eof_word

  unfoldable pub write_hdr : ℕ → S → Option Error × S
  unfolding write_word
  write_hdr = write_word

module _ {S : Type 0} (r : Reader S) where
  -- The size, with its error, and the stream's `hdr` after the read.
  unfoldable pub read_header : Bytes → S → ℕ × Option Error × Bytes × S
  read_header hdr s =
      let (bytes, e, s') = r.read s hdr_len in
      let hdr' = patch 0 bytes hdr in
      elim e [
        | some x ↦ (0, some x, hdr', s')
        | none ↦
            if length bytes == hdr_len
            then (if uint32 hdr' == eof_word
                then (0, some eof, hdr', s')
                else (uint32 hdr', none, hdr', s'))
            else (0, some short_buffer, hdr', s')
      ]

  -- `read(offset)` from `n` bytes on, into `buf`. The slice `s.buf[n:offset]` panics when `offset`
  -- is beyond the buffer. The results are `n` and the error.
  unfoldable pub read_loop : ℕ → ℕ → ℕ → Bytes → S → Go (ℕ × Option Error) × Bytes × S
  read_loop zero offset n buf s = (stuck, buf, s)
  read_loop (suc fuel) offset n buf s =
      let (bytes, re, s') = r.read s (offset - n) in
      let n' = n + length bytes in
      let buf' = patch n bytes buf in
      let rest = read_loop fuel offset n' buf' s' in
      if ltb n offset
      then (if ltb (length buf) offset then (panic, buf, s) else elim re [
        | some e ↦ if is_eof e then (ok (n', some eof), buf', s') else (ok (0, some e), buf', s')
        | none ↦ if n' == offset then (ok (n', none), buf', s') else rest
      ])
      else (ok (n, none), buf, s)
