-- ===== src/Stream/Ready.antt =====
-- What transfers and reads leave of a stream's buffers (stream.go): their sizes, on every branch.
use go_wirenet.Base.{
  ℕ, zero, suc, ◌+◌, ◌-◌, ◌≡◌, refl, ◌∙◌, Bool, true, false, ◌&&◌, Option, some, none, arith, Bytes,
  length, take, patch, length-patch, ltb, if◌then◌else◌, ◌==◌, ◌||◌,
}
use go_wirenet.Go.{Error, Go, ok, err, panic, stuck, is_eof, stream_closed, short_write}
use go_wirenet.Io.{Reader, Writer, IsReader}
use go_wirenet.Stream.Conn.{Conn}
use go_wirenet.Stream.Defs.{Stream, read_header, read_loop, write_hdr, write_eof}
use go_wirenet.Stream.Transfer.{
  Moved, header_is_eof, deliver, next_chunk, after_read, write_to_loop, write_to, send_chunk,
  read_from_loop, read_from, end_of_source,
}
use go_wirenet.Stream.Delivery.{IsReady, reset_ready}
use go_wirenet.Stream.Defs.{buf_size}

module _ {S : Type 0} (r : Reader S) (law : IsReader r) where
  length-read_loop :
      (fuel offset n : ℕ) (buf : Bytes) (x : S)
      → length (read_loop r fuel offset n buf x).1 ≡ length buf
  unfolding read_loop
  length-read_loop zero offset n buf x = refl
  length-read_loop (suc fuel) offset n buf x =
      let bytes : Bytes = (r.read x (offset - n)).0 in
      ground (
        arith,
        law.within x (offset - n),
        length-patch n bytes buf,
        length-read_loop fuel offset (n + length bytes) (patch n bytes buf)
            (r.read x (offset - n)).2,
      )

  length-read_header : (hdr : Bytes) (x : S) → length hdr ≡ 4 → length (read_header r hdr x).2 ≡ 4
  unfolding read_header
  length-read_header hdr x header =
      ground (arith, law.within x 4, length-patch 0 (r.read x 4).0 hdr)

module _ {S : Type 0} (limit : ℕ) where
  if-IsReady :
      (b : Bool) (u v : Moved S)
      → IsReady limit u.1
      → IsReady limit v.1
      → IsReady limit (if b then u else v).1
  if-IsReady true u v h k = h
  if-IsReady false u v h k = k

  on_error-IsReady :
      (o : Option Error) (f : Error → Moved S) (u : Moved S)
      → ((e : Error) → IsReady limit (f e).1)
      → IsReady limit u.1
      → IsReady limit (elim o as (λ _. Moved S) [ some e ↦ f e | none ↦ u ]).1
  on_error-IsReady none f u h k = k
  on_error-IsReady (some e) f u h k = h e

module _ {S : Type 0} (c : Conn S) (dst : Writer S) (limit : ℕ) where
  next_chunk-IsReady :
      (loop : ℕ → S → Moved S) (s : Stream) (g : Go (ℕ × Option Error) × S)
      → IsReady limit s
      → ((n : ℕ) (x : S) → IsReady limit (loop n x).1)
      → IsReady limit (next_chunk c dst loop s g).1
  next_chunk-IsReady loop s (ok (n, none), x) h k = k n x
  next_chunk-IsReady loop s (ok (n, some e), x) h k = h
  next_chunk-IsReady loop s (err e, x) h k = h
  next_chunk-IsReady loop s (panic, x) h k = h
  next_chunk-IsReady loop s (stuck, x) h k = h

  with_buf-IsReady :
      (s : Stream) (buf : Bytes)
      → IsReady limit s
      → length buf ≡ limit
      → IsReady limit (record s { buf = buf })
  with_buf-IsReady s buf h room = record { is_open = h.is_open; header = h.header; room = room }

  after_read-IsReady :
      (go : ℕ → Stream → S → Moved S) (s : Stream) (n : ℕ) (g : Go (ℕ × Option Error) × Bytes × S)
      → IsReady limit s
      → length g.1 ≡ limit
      → ((rn : ℕ) (s' : Stream) (x : S) → IsReady limit s' → IsReady limit (go rn s' x).1)
      → IsReady limit (after_read c dst go s n g).1
  after_read-IsReady go s n (ok (rn, none), buf, x) h room k =
      k rn (record s { buf = buf }) x (with_buf-IsReady s buf h room)
  after_read-IsReady go s n (ok (rn, some e), buf, x) h room k = with_buf-IsReady s buf h room
  after_read-IsReady go s n (err e, buf, x) h room k = with_buf-IsReady s buf h room
  after_read-IsReady go s n (panic, buf, x) h room k = with_buf-IsReady s buf h room
  after_read-IsReady go s n (stuck, buf, x) h room k = with_buf-IsReady s buf h room

  module _ (law : IsReader c.reader) where
    write_to_loop-IsReady :
        (fuel n : ℕ) (s : Stream) (x : S)
        → IsReady limit s
        → IsReady limit (write_to_loop c dst fuel n s x).1
    unfolding write_to_loop
    write_to_loop-IsReady zero n s x h = h
    write_to_loop-IsReady (suc fuel) n s x h =
        let (size, erh, hdr, x1) = read_header c.reader s.hdr x in
        let s1 : Stream = record s { hdr = hdr } in
        let h1 : IsReady limit s1 = record {
          is_open = h.is_open;
          header = length-read_header c.reader law s.hdr x h.header;
          room = h.room;
        } in
        let go = λ (rn : ℕ) (s2 : Stream) (x2 : S).
          next_chunk c dst (λ n' x'. write_to_loop c dst fuel n' s2 x') s2
            (deliver c dst fuel n size rn s2.buf x2) in
        let round : Moved S = after_read c dst go s1 n (read_loop c.reader fuel size 0 s1.buf x1) in
        let inner : IsReady limit round.1 =
          after_read-IsReady go s1 n (read_loop c.reader fuel size 0 s1.buf x1) h1
            (length-read_loop c.reader law fuel size 0 s1.buf x1 ∙ h.room)
            (λ rn s2 x2 h2.
              next_chunk-IsReady (λ n' x'. write_to_loop c dst fuel n' s2 x') s2
                (deliver c dst fuel n size rn s2.buf x2) h2
                (λ n' x'. write_to_loop-IsReady fuel n' s2 x' h2)) in
        if-IsReady limit (s.closed && c.sess_closed x) (ok (0, some stream_closed), s, x)
          (if header_is_eof erh then (ok (n, none), s1, x1) else round) h
          (if-IsReady limit (header_is_eof erh) (ok (n, none), s1, x1) round h1 inner)

    -- WriteTo of an open stream leaves it open, with buffers of the sizes they had, whatever arrives.
    pub write_to-IsReady :
        (fuel : ℕ) (s : Stream) (x : S)
        → limit ≡ buf_size
        → IsReady limit s
        → IsReady limit (write_to c dst fuel s x).1
    unfolding write_to
    write_to-IsReady fuel s x e h =
        rw (reset_ready s (h.room ∙ e)) (write_to_loop-IsReady fuel 0 s x h)

module _ {S : Type 0} (c : Conn S) (src : Reader S) (limit : ℕ) where
  end_of_source-IsReady :
      (n nr : ℕ) (e : Error) (s : Stream) (x : S)
      → IsReady limit s
      → IsReady limit (end_of_source c src n nr e s x).1
  unfolding end_of_source
  end_of_source-IsReady n nr e s x h =
      if-IsReady limit (is_eof e || (nr == 0))
        (ok (n, (write_eof c.writer x).0), s, (write_eof c.writer x).1) (ok (n, none), s, x) h h

  send_chunk-IsReady :
      (loop : ℕ → S → Moved S) (n nr : ℕ) (s : Stream) (x : S)
      → IsReady limit s
      → ((n : ℕ) (x : S) → IsReady limit (loop n x).1)
      → IsReady limit (send_chunk c src loop n nr s x).1
  unfolding send_chunk
  send_chunk-IsReady loop n nr s x h k =
      let (e, x1) = write_hdr c.writer nr x in
      let (nw, ew, x2) = c.writer.write x1 (take nr s.buf) in
      let last : Moved S =
        if nw == nr then loop (n + nw) x2 else (ok (n + nw, some short_write), s, x2) in
      let sent : Moved S = elim ew [ some we ↦ (ok (n + nw, some we), s, x2) | none ↦ last ] in
      on_error-IsReady limit e (λ we. (ok (0, some we), s, x1))
        (if ltb 0 nr then sent else loop n x1) (λ _. h)
        (if-IsReady limit (ltb 0 nr) sent (loop n x1)
          (on_error-IsReady limit ew (λ we. (ok (n + nw, some we), s, x2)) last (λ _. h)
            (if-IsReady limit (nw == nr) (loop (n + nw) x2) (ok (n + nw, some short_write), s, x2)
              (k (n + nw) x2) h))
          (k n x1))

  module _ (law : IsReader src) where
    read_from_loop-IsReady :
        (fuel n : ℕ) (s : Stream) (x : S)
        → IsReady limit s
        → IsReady limit (read_from_loop c src fuel n s x).1
    unfolding read_from_loop
    read_from_loop-IsReady zero n s x h = h
    read_from_loop-IsReady (suc fuel) n s x h =
        let (bytes, er, x1) = src.read x (length s.buf) in
        let s1 : Stream = record s { buf = patch 0 bytes s.buf } in
        let loop = λ (n' : ℕ) (x' : S). read_from_loop c src fuel n' s1 x' in
        let h1 : IsReady limit s1 = record {
          is_open = h.is_open;
          header = h.header;
          room = length-patch 0 bytes s.buf (omega (arith, law.within x (length s.buf))) ∙ h.room;
        } in
        let round : Moved S = send_chunk c src loop n (length bytes) s1 x1 in
        if-IsReady limit (s.closed && c.sess_closed x) (ok (0, some stream_closed), s, x)
          (elim er [ some e ↦ end_of_source c src n (length bytes) e s1 x1 | none ↦ round ]) h
          (on_error-IsReady limit er (λ e. end_of_source c src n (length bytes) e s1 x1) round
            (λ e. end_of_source-IsReady n (length bytes) e s1 x1 h1)
            (send_chunk-IsReady loop n (length bytes) s1 x1 h1
              (λ n' x'. read_from_loop-IsReady fuel n' s1 x' h1)))

    -- ReadFrom of an open stream leaves it open, with buffers of the sizes they had, whatever the
    -- source does.
    pub read_from-IsReady :
        (fuel : ℕ) (s : Stream) (x : S)
        → limit ≡ buf_size
        → IsReady limit s
        → IsReady limit (read_from c src fuel s x).1
    unfolding read_from
    read_from-IsReady fuel s x e h =
        rw (reset_ready s (h.room ∙ e)) (read_from_loop-IsReady fuel 0 s x h)
