-- ===== src/Stream/Boundaries.antt =====
-- Writes and reads at the edges of what a chunk can be: empty, longer than the receiver's buffer, or
-- read together with the end of the source.
use go_wirenet.Base.{
  [], append-nil, sym, true, Bool, ◌||◌, ◌==◌, if◌then◌else◌, patch, ℕ, suc, ◌%◌, ◌^◌, ◌<◌, ◌≡◌,
  refl, ap, ◌∙◌, false, some, none, ◌++◌, append_assoc, arith, Bytes, length, put_uint32,
}
use go_wirenet.Go.{Error, is_eof, ok, panic}
use go_wirenet.Io.{Reader, Writer, Delivers, IsWriter}
use go_wirenet.Stream.Conn.{Conn}
use go_wirenet.Stream.Defs.{
  Stream, buf_size, read_header, read_loop, write_word, write_hdr, write_eof,
}
use go_wirenet.Stream.Transfer.{end_of_source, write_to_loop, write_to, read_from_loop, read_from}
use go_wirenet.Stream.Chunks.{read_header-word}
use go_wirenet.Stream.Chunking.{sent-write, mod_small}
use go_wirenet.Stream.Delivery.{reset_ready}
use go_wirenet.Stream.ReaderWriter.{writer_write}

-- `s.buf[n:offset]` with an offset beyond the buffer.
read_loop_panic :
    {S : Type 0} (r : Reader S) (fuel offset : ℕ) (buf : Bytes) (x : S)
    → length buf < offset
    → read_loop r (suc fuel) offset 0 buf x ≡ (panic, buf, x)
unfolding read_loop
read_loop_panic r fuel offset buf x h = ground arith

module _ {S : Type 0} (c : Conn S) (dst : Writer S) where
  panic_round :
      (fuel n size : ℕ) (s : Stream) (x x1 : S) (hdr : Bytes)
      → s.closed ≡ false
      → read_header c.reader s.hdr x ≡ (size, none, hdr, x1)
      → length s.buf < size
      → (write_to_loop c dst (suc (suc fuel)) n s x).0 ≡ panic
  unfolding write_to_loop
  panic_round fuel n size s x x1 hdr is_open h long =
      rw (h, read_loop_panic c.reader fuel size s.buf x1 long, is_open) refl

  -- WriteTo panics on a chunk that is longer than its buffer of 1024 bytes.
  write_to_panics :
      {pending : S → Bytes}
      → Delivers c.reader pending
      → (v fuel : ℕ) (rest : Bytes) (s : Stream) (x : S) → buf_size < v
      → v < 2 ^ 32
      → s.closed ≡ false
      → length s.hdr ≡ 4
      → length s.buf ≡ buf_size
      → pending x ≡ put_uint32 v ++ rest
      → (write_to c dst (suc (suc fuel)) s x).0 ≡ panic
  unfolding write_to
  write_to_panics law v fuel rest s x long small is_open header room p =
      let (read, _) = read_header-word c.reader law v rest s.hdr x (omega arith) small header p in
      rw (reset_ready s room)
        (panic_round fuel 0 v s x (c.reader.read x 4).2 (put_uint32 v) is_open read (omega arith))

writer_write_whole :
    {S : Type 0} (c : Conn S) (s : Stream) (word p : Bytes) (x : S)
    → s.closed ≡ false
    → put_uint32 (length p % 2 ^ 32) ≡ word
    → (c.writer.write x word).1 ≡ none
    → (c.writer.write (c.writer.write x word).2 p).1 ≡ none
    → (c.writer.write (c.writer.write x word).2 p).0 ≡ length p
    → writer_write c s p x ≡ ((length p, none), (c.writer.write (c.writer.write x word).2 p).2)
unfolding writer_write write_hdr write_word
writer_write_whole c s word p x is_open is_word fine1 fine2 all = ground arith

module _ {S : Type 0} (c : Conn S) {sent : S → Bytes} (takes : IsWriter c.writer sent)
    (fine : (x : S) (p : Bytes) → (c.writer.write x p).1 ≡ none) (s : Stream) (p : Bytes) (x : S)
    (is_open : s.closed ≡ false) (small : length p < 2 ^ 32) where
  -- The writer of a stream puts what it is given into one chunk, of whatever length.
  pub writer_write_chunk :
      (x' : S) × (writer_write c s p x ≡ ((length p, none), x'))
      × (sent x' ≡ sent x ++ (put_uint32 (length p) ++ p))
  writer_write_chunk =
      let word : Bytes = put_uint32 (length p) in
      let x1 : S = (c.writer.write x word).2 in
      (
        (c.writer.write x1 p).2,
        writer_write_whole c s word p x is_open (ap put_uint32 (mod_small (length p) small))
            (fine x word) (fine x1 p) (takes.whole x1 p (fine x1 p)),
        sent-write c.writer takes fine x1 p
            ∙ ap (λ t. t ++ p) (sent-write c.writer takes fine x word)
            ∙ append_assoc (sent x) word p,
      )

  module _ {T : Type 0} (d : Conn T) (dst : Writer T) {arrived : T → Bytes}
      (law : Delivers d.reader arrived) where
    -- A Write of more than 1024 bytes succeeds at its end of an open stream, as one chunk; when that
    -- chunk arrives, WriteTo at the other end panics.
    pub write_to-writer_write :
        (rest : Bytes) (fuel : ℕ) (s' : Stream) (y : T)
        → buf_size < length p
        → s'.closed ≡ false
        → length s'.hdr ≡ 4
        → length s'.buf ≡ buf_size
        → ((out : Bytes) → sent (writer_write c s p x).1 ≡ sent x ++ out → arrived y ≡ out ++ rest)
        → ((writer_write c s p x).0 ≡ (length p, none))
          × ((write_to d dst (suc (suc fuel)) s' y).0 ≡ panic)
    write_to-writer_write rest fuel s' y long is_open' header room carried =
        let (x', ran, out) = writer_write_chunk in
        let there : arrived y ≡ put_uint32 (length p) ++ (p ++ rest) =
          carried (put_uint32 (length p) ++ p) (ap (λ g. sent g.1) ran ∙ out)
          ∙ append_assoc (put_uint32 (length p)) p rest in
        (
          ap (λ g. g.0) ran,
          write_to_panics d dst law (length p) fuel (p ++ rest) s' y long small is_open' header room
              there,
        )

read_from_ready :
    {S : Type 0} (c : Conn S) (src : Reader S) (fuel : ℕ) (s : Stream) (x : S)
    → length s.buf ≡ buf_size
    → read_from c src fuel s x ≡ read_from_loop c src fuel 0 s x
unfolding read_from
read_from_ready c src fuel s x room = ap (λ t. read_from_loop c src fuel 0 t x) (reset_ready s room)

failing_round :
    {S : Type 0} (c : Conn S) (src : Reader S) (fuel n : ℕ) (bytes : Bytes) (e : Error) (s : Stream)
    (x x1 : S)
    → s.closed ≡ false
    → src.read x (length s.buf) ≡ (bytes, some e, x1)
    → (c.writer.write x1 (put_uint32 0)).1 ≡ none
    → read_from_loop c src (suc fuel) n s x ≡ (
      ok (n, none),
      record s { buf = patch 0 bytes s.buf },
      if is_eof e || (length bytes == 0) then (c.writer.write x1 (put_uint32 0)).2 else x1,
    )
unfolding read_from_loop end_of_source write_eof write_word
failing_round c src fuel n bytes e s x x1 is_open last fine = ground arith

sent_if :
    {S : Type 0} (sent : S → Bytes) (b : Bool) (y z : S) (bytes : Bytes)
    → sent y ≡ sent z ++ bytes
    → sent (if b then y else z) ≡ sent z ++ (if b then bytes else [])
sent_if sent true y z bytes h = h
sent_if sent false y z bytes h = sym (append-nil (sent z))

-- ReadFrom of an open stream from a source whose read fails, with whatever error and whatever bytes
-- beside it: ReadFrom ends with no error and a count of 0, and the bytes are lost. The end marker is
-- written if the error is io.EOF or no bytes came, and otherwise nothing.
pub read_from_failing_source :
    {S : Type 0} (c : Conn S) (src : Reader S) {sent : S → Bytes}
    → IsWriter c.writer sent
    → ((x : S) (p : Bytes) → (c.writer.write x p).1 ≡ none)
    → ((x : S) (n : ℕ) → sent (src.read x n).2 ≡ sent x)
    → (fuel : ℕ) (bytes : Bytes) (e : Error) (s : Stream) (x x1 : S) → s.closed ≡ false
    → length s.buf ≡ buf_size
    → src.read x (length s.buf) ≡ (bytes, some e, x1)
    → ((read_from c src (suc fuel) s x).0 ≡ ok (0, none))
      × (sent (read_from c src (suc fuel) s x).2
          ≡ sent x ++ (if is_eof e || (length bytes == 0) then put_uint32 0 else []))
read_from_failing_source c src {sent} takes fine apart fuel bytes e s x x1 is_open room last =
    let mark : Bool = is_eof e || (length bytes == 0) in
    let ran =
      read_from_ready c src (suc fuel) s x room
      ∙ failing_round c src fuel 0 bytes e s x x1 is_open last (fine x1 (put_uint32 0)) in
    let kept : sent x1 ≡ sent x = ap (λ g. sent g.2) (sym last) ∙ apart x (length s.buf) in
    (
      ap (λ g. g.0) ran,
      ap (λ g. sent g.2) ran
          ∙ sent_if sent mark (c.writer.write x1 (put_uint32 0)).2 x1 (put_uint32 0)
              (sent-write c.writer takes fine x1 (put_uint32 0))
          ∙ ap (λ t. t ++ (if mark then put_uint32 0 else [])) kept,
    )
