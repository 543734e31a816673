-- ===== src/Stream/Stalling.antt =====
-- WriteTo on a connection that has failed.
use go_wirenet.Base.{ℕ, zero, suc, ◌≡◌, refl, ap, ◌∙◌, false, some, Bytes, patch, arith}
use go_wirenet.Go.{Error, is_eof, stuck}
use go_wirenet.Io.{Reader, Writer}
use go_wirenet.Stream.Conn.{Conn}
use go_wirenet.Stream.Defs.{Stream, read_header, read_loop, reset_buffers}
use go_wirenet.Stream.Transfer.{write_to_loop, write_to, deliver}

-- A connection that has failed for good: where it has, each read returns an error other than io.EOF.
pub record Fails {S : Type 0} (r : Reader S) (failed : S → Type 0) : Type 0 where
  pub error :
      (x : S) (n : ℕ) → failed x → (e : Error) × ((r.read x n).1 ≡ some e) × (is_eof e ≡ false)
  pub stays : (x : S) (n : ℕ) → failed x → failed (r.read x n).2

closed-reset_buffers : (s : Stream) → (reset_buffers s).closed ≡ s.closed
unfolding reset_buffers
closed-reset_buffers s = ground arith

read_header_failed :
    {S : Type 0} (r : Reader S) (hdr : Bytes) (e : Error) (x : S)
    → (r.read x 4).1 ≡ some e
    → read_header r hdr x ≡ (0, some e, patch 0 (r.read x 4).0 hdr, (r.read x 4).2)
unfolding read_header
read_header_failed r hdr e x h = rw (h, read_header) refl

module _ {S : Type 0} (c : Conn S) (dst : Writer S) where
  -- A round goes by the error of the header, reads and writes nothing, and the next one follows.
  idle_round :
      (fuel n : ℕ) (hdr : Bytes) (e : Error) (s : Stream) (x x1 : S)
      → s.closed ≡ false
      → read_header c.reader s.hdr x ≡ (0, some e, hdr, x1)
      → is_eof e ≡ false
      → write_to_loop c dst (suc (suc fuel)) n s x
        ≡ write_to_loop c dst (suc fuel) n (record s { hdr = hdr }) x1
  unfolding write_to_loop deliver read_loop
  idle_round fuel n hdr e s x x1 is_open h other = rw (is_open, h, other) refl

  last_round :
      (n : ℕ) (hdr : Bytes) (e : Error) (s : Stream) (x x1 : S)
      → s.closed ≡ false
      → read_header c.reader s.hdr x ≡ (0, some e, hdr, x1)
      → is_eof e ≡ false
      → write_to_loop c dst (suc zero) n s x ≡ (stuck, record s { hdr = hdr }, x1)
  unfolding write_to_loop read_loop
  last_round n hdr e s x x1 is_open h other = rw (is_open, h, other) refl

  module _ {failed : S → Type 0} (fails : Fails c.reader failed) where
    spins :
        (fuel n : ℕ) (s : Stream) (x : S)
        → s.closed ≡ false
        → failed x
        → (write_to_loop c dst fuel n s x).0 ≡ stuck
    unfolding write_to_loop
    spins zero n s x is_open h = refl
    spins (suc zero) n s x is_open h =
        let (e, err, other) = fails.error x 4 h in
        ap (λ g. g.0)
          (last_round n (patch 0 (c.reader.read x 4).0 s.hdr) e s x (c.reader.read x 4).2 is_open
            (read_header_failed c.reader s.hdr e x err) other)
    spins (suc (suc fuel)) n s x is_open h =
        let (e, err, other) = fails.error x 4 h in
        ap (λ g. g.0)
          (idle_round fuel n (patch 0 (c.reader.read x 4).0 s.hdr) e s x (c.reader.read x 4).2
            is_open (read_header_failed c.reader s.hdr e x err) other)
        ∙ spins (suc fuel) n _ (c.reader.read x 4).2 is_open (fails.stays x 4 h)

    -- When the connection of an open stream has failed with an error other than io.EOF, and each read
    -- returns such an error, WriteTo goes round for ever: no number of rounds is enough for it to return.
    pub write_to_spins :
        (fuel : ℕ) (s : Stream) (x : S)
        → s.closed ≡ false
        → failed x
        → (write_to c dst fuel s x).0 ≡ stuck
    unfolding write_to
    write_to_spins fuel s x is_open h =
        spins fuel 0 (reset_buffers s) x (closed-reset_buffers s ∙ is_open) h
