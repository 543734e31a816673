-- ===== src/Io/Streams.antt =====
-- Readers, writers, and the laws that their documentation gives.
use go_wirenet.Base.{ℕ, ◌≤◌, ◌<◌, ◌≡◌, ◌≢◌, Option, none, [], ◌++◌, Bytes, length, take}
use go_wirenet.Go.{Error}

-- `Read(p)` with `len(p)` for the argument: the bytes that it put into `p`, and its error.
pub record Reader (S : Type 0) : Type 0 where
  pub read : S → ℕ → Bytes × Option Error × S

-- `Write(p)`: how many bytes it took, and its error.
pub record Writer (S : Type 0) : Type 0 where
  pub write : S → Bytes → ℕ × Option Error × S

-- "Read reads up to len(p) bytes into p."
pub record IsReader {S : Type 0} (r : Reader S) : Type 0 where
  pub within : (s : S) (n : ℕ) → length (r.read s n).0 ≤ n

-- "It returns the number of bytes written from p (0 <= n <= len(p)) and any error encountered that
-- caused the write to stop early. Write must return a non-nil error if it returns n < len(p)."
-- `sent` is what the writer has taken so far.
pub record IsWriter {S : Type 0} (w : Writer S) (sent : S → Bytes) : Type 0 where
  pub within : (s : S) (p : Bytes) → (w.write s p).0 ≤ length p
  pub whole : (s : S) (p : Bytes) → (w.write s p).1 ≡ none → (w.write s p).0 ≡ length p
  pub takes : (s : S) (p : Bytes) → sent (w.write s p).2 ≡ sent s ++ take (w.write s p).0 p

-- A reliable ordered stream with the bytes `pending` still to come: a read takes some of them off
-- the front, at least one if there is one, and with no error. The program also relies on a header
-- (at most 12 bytes) that has arrived being read in one piece.
pub record Delivers {S : Type 0} (r : Reader S) (pending : S → Bytes) : Type 0 where
  pub within : (s : S) (n : ℕ) → length (r.read s n).0 ≤ n
  pub front : (s : S) (n : ℕ) → (r.read s n).0 ++ pending (r.read s n).2 ≡ pending s
  pub some_bytes : (s : S) (n : ℕ) → 0 < n → pending s ≢ [] → 0 < length (r.read s n).0
  pub no_error : (s : S) (n : ℕ) → pending s ≢ [] → (r.read s n).1 ≡ none
  pub whole_header : (s : S) (n : ℕ) → n ≤ 12 → n ≤ length (pending s) → length (r.read s n).0 ≡ n
