-- ===== src/Examples/Buffers.antt =====
-- What package bytes gives the examples (examples/keyboard, examples/bytes): a Buffer to write into and a
-- Reader of some bytes, beside a connection. The world is the connection's and the bytes.
use go_wirenet.Base.{
  ℕ, ◌<◌, ◌≡◌, ◌≢◌, refl, sym, ap, some, none, Option, [], ◌∷◌, ◌++◌, arith, Bytes, length, take,
  drop, length-take, take-append-drop, take_all,
}
use go_wirenet.Go.{Error, eof}
use go_wirenet.Io.{Reader, Writer, Delivers, IsWriter}
use go_wirenet.Stream.Conn.{Conn}

-- `Reader.Read`: io.EOF where nothing is left.
abbrev pub at_end : Bytes → Option Error
at_end [] = some eof
at_end (y ∷ ys) = none

some_taken : (n : ℕ) (xs : Bytes) → 0 < n → xs ≢ [] → 0 < length (take n xs)
some_taken n [] h k = absurd (k refl)
some_taken n (y ∷ ys) h k = omega (arith, length-take n (y ∷ ys))

not_at_end : (xs : Bytes) → xs ≢ [] → at_end xs ≡ none
not_at_end [] h = absurd (h refl)
not_at_end (y ∷ ys) h = refl

module _ {S : Type 0} where
  abbrev pub bytes_reader : Reader (S × Bytes)
  bytes_reader = record { read = λ x n. (take n x.1, at_end x.1, (x.0, drop n x.1)) }

  -- `Buffer.Write` takes all, and has no error.
  abbrev pub bytes_buffer : Writer (S × Bytes)
  bytes_buffer = record { write = λ x p. (length p, none, (x.0, x.1 ++ p)) }

  abbrev pub reader_beside : Reader S → Reader (S × Bytes)
  reader_beside r = record {
    read = λ x n. ((r.read x.0 n).0, (r.read x.0 n).1, ((r.read x.0 n).2, x.1));
  }

  abbrev pub writer_beside : Writer S → Writer (S × Bytes)
  writer_beside w = record {
    write = λ x p. ((w.write x.0 p).0, (w.write x.0 p).1, ((w.write x.0 p).2, x.1));
  }

  -- The connection, which leaves the bytes alone.
  abbrev pub beside : Conn S → Conn (S × Bytes)
  beside c = record {
    reader = reader_beside c.reader;
    writer = writer_beside c.writer;
    sess_closed = λ x. c.sess_closed x.0;
  }

  pub beside-Delivers :
      {pending : S → Bytes} (r : Reader S)
      → Delivers r pending
      → Delivers (reader_beside r) (λ x. pending x.0)
  beside-Delivers r law = record {
    within = λ x n. law.within x.0 n;
    front = λ x n. law.front x.0 n;
    some_bytes = λ x n. law.some_bytes x.0 n;
    no_error = λ x n. law.no_error x.0 n;
    whole_header = λ x n. law.whole_header x.0 n;
  }

  pub beside-IsWriter :
      {sent : S → Bytes} (w : Writer S)
      → IsWriter w sent
      → IsWriter (writer_beside w) (λ x. sent x.0)
  beside-IsWriter w law = record {
    within = λ x p. law.within x.0 p;
    whole = λ x p. law.whole x.0 p;
    takes = λ x p. law.takes x.0 p;
  }

  pub bytes_buffer-IsWriter : IsWriter bytes_buffer (λ x. x.1)
  bytes_buffer-IsWriter = record {
    within = λ x p. omega arith;
    whole = λ x p e. refl;
    takes = λ x p. ap (◌++◌ x.1) (sym (take_all (length p) p (omega arith)));
  }

  pub bytes_reader-Delivers : Delivers bytes_reader (λ x. x.1)
  bytes_reader-Delivers = record {
    within = λ x n. omega (arith, length-take n x.1);
    front = λ x n. take-append-drop n x.1;
    some_bytes = λ x n. some_taken n x.1;
    no_error = λ x n. not_at_end x.1;
    whole_header = λ x n small there. omega (arith, length-take n x.1);
  }
