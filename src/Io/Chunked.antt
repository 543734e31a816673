-- ===== src/Io/Chunked.antt =====
-- A concrete connection that meets the laws: what the peer has sent arrives in pieces of at most
-- `limit` bytes, and every write is taken whole. Tests and instances of theorems run on it.
use go_wirenet.Base.{
  ℕ, ◌≤◌, ◌<◌, ◌≡◌, ◌≢◌, refl, sym, ap, ◌∷◌, none, some, [], ◌++◌, arith, Bytes, length, take, drop,
  length-take, take-append-drop, take_all, min, Option,
}
use go_wirenet.Go.{Error, eof}
use go_wirenet.Io.Streams.{Reader, Writer, IsReader, IsWriter, Delivers}

pub record Wires : Type 0 where
  pub inbox : Bytes
  pub outbox : Bytes

-- io.EOF once the inbox is empty.
abbrev pub end_error : Bytes → Option Error
end_error [] = some eof
end_error _ = none

abbrev pub reader : ℕ → Reader Wires
reader limit = record {
  read = λ s n. (
    take (min limit n) s.inbox,
    end_error s.inbox,
    record s { inbox = drop (min limit n) s.inbox },
  );
}

abbrev pub writer : Writer Wires
writer = record { write = λ s p. (length p, none, record s { outbox = s.outbox ++ p }) }

pub reader-IsReader : (limit : ℕ) → IsReader (reader limit)
reader-IsReader limit = record { within = λ s n. omega (arith, length-take (min limit n) s.inbox) }

some_taken : (m : ℕ) (xs : Bytes) → 0 < m → xs ≢ [] → 0 < length (take m xs)
some_taken m [] h k = absurd (k refl)
some_taken m (x ∷ xs) h k = omega (arith, length-take m (x ∷ xs))

no_end_error : (xs : Bytes) → xs ≢ [] → end_error xs ≡ none
no_end_error [] h = absurd (h refl)
no_end_error (x ∷ xs) h = refl

-- With pieces of 12 bytes or more the reads meet what the program relies on.
pub reader-Delivers : (limit : ℕ) → 12 ≤ limit → Delivers (reader limit) (λ s. s.inbox)
reader-Delivers limit h = record {
  within = λ s n. omega (arith, length-take (min limit n) s.inbox);
  front = λ s n. take-append-drop (min limit n) s.inbox;
  some_bytes = λ s n pos rest. some_taken (min limit n) s.inbox (omega arith) rest;
  no_error = λ s n rest. no_end_error s.inbox rest;
  whole_header = λ s n small there. omega (arith, length-take (min limit n) s.inbox);
}

pub writer-IsWriter : IsWriter writer (λ s. s.outbox)
writer-IsWriter = record {
  within = λ s p. omega arith;
  whole = λ s p e. refl;
  takes = λ s p. ap (◌++◌ s.outbox) (sym (take_all (length p) p (omega arith)));
}
