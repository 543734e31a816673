-- ===== src/Stream/Messages.antt =====
-- A message written part by part at one end and taken by WriteTo at the other (stream.go).
use go_wirenet.Base.{
  ℕ, ◌+◌, ◌<◌, ◌≡◌, refl, false, none, Option, List, ◌++◌, arith, Bytes, length, flatten,
  length-append, ap, subst,
}
use go_wirenet.Go.{Error, Go, ok}
use go_wirenet.Io.{Writer, Delivers, IsWriter}
use go_wirenet.Stream.Conn.{Conn}
use go_wirenet.Stream.Defs.{Stream, buf_size}
use go_wirenet.Stream.Transfer.{write_to}
use go_wirenet.Stream.Chunks.{chunked, AreChunks}
use go_wirenet.Stream.Delivery.{IsReady, write_to-Moves}
use go_wirenet.Stream.Buffering.{count-chunked}
use go_wirenet.Stream.Ready.{write_to-IsReady}
use go_wirenet.Stream.Parts.{write_part, sent-write_part}

module _ {T : Type 0} (d : Conn T) (dst : Writer T) {arrived got : T → Bytes}
    (law : Delivers d.reader arrived) (takes : IsWriter dst got)
    (fine : (y : T) (p : Bytes) → (dst.write y p).1 ≡ none)
    (reads_apart : (y : T) (n : ℕ) → got (d.reader.read y n).2 ≡ got y)
    (writes_apart : (y : T) (p : Bytes) → arrived (dst.write y p).2 ≡ arrived y) where
  -- WriteTo from `y` on took a message, left `rest`, and the stream is as good as before.
  abbrev pub Takes : Bytes → Bytes → T → Go (ℕ × Option Error) × Stream × T → Type 0
  Takes body rest y g =
      (s' : Stream) × (y' : T) × (g ≡ (ok (0 + length body, none), s', y'))
      × IsReady buf_size s'
      × (got y' ≡ got y ++ body)
      × (arrived y' ≡ rest)

  pub write_to-Takes :
      (ps : List Bytes) (rest : Bytes) (fuel : ℕ) (s : Stream) (y : T)
      → AreChunks buf_size ps
      → IsReady buf_size s
      → length (arrived y) + buf_size + 2 < fuel
      → arrived y ≡ chunked ps ++ rest
      → Takes (flatten ps) rest y (write_to d dst fuel s y)
  write_to-Takes ps rest fuel s y are ready h p =
      let (s', y', ran, out, left) =
        write_to-Moves d dst law takes fine reads_apart writes_apart ps fuel rest s y are
          ready.is_open ready.header ready.room
          (omega (arith, count-chunked ps, ap length p, length-append (chunked ps) rest)) p in
      let still =
        write_to-IsReady d dst buf_size (record { within = law.within }) fuel s y refl ready in
      (
        s',
        y',
        ran,
        subst (λ (g : Go (ℕ × Option Error) × Stream × T). IsReady buf_size g.1) ran still,
        out,
        left,
      )

  -- A message goes through whole, part by part: when what Writes of 1 to 1024 bytes and a Close
  -- added to the connection at one end, over a writer that takes all, has arrived at the other end,
  -- WriteTo there ends with no error, has handed on the parts in order and joined, and counts their
  -- bytes; what arrived behind stays unread, and the stream is still open, with its buffers whole.
  pub write_to-write_part :
      {S : Type 0} (c : Conn S) {sent : S → Bytes}
      → IsWriter c.writer sent
      → ((x : S) (p : Bytes) → (c.writer.write x p).1 ≡ none)
      → (ps : List Bytes) (rest : Bytes) (fuel : ℕ) (s s' : Stream) (x : S) (y : T)
      → AreChunks buf_size ps
      → s.closed ≡ false
      → IsReady buf_size s'
      → length (arrived y) + buf_size + 2 < fuel
      → ((out : Bytes) → sent (write_part c s ps x) ≡ sent x ++ out → arrived y ≡ out ++ rest)
      → Takes (flatten ps) rest y (write_to d dst fuel s' y)
  write_to-write_part c takes' fine' ps rest fuel s s' x y are is_open ready h carried =
      write_to-Takes ps rest fuel s' y are ready h (
        carried (chunked ps)
          (sent-write_part c takes' fine' s is_open buf_size ps x (omega arith) are))
