-- ===== src/Tests/Hazards.antt =====
-- A chunk that is too long, a chunk in two pieces, and the waits of a client, on concrete connections.
use go_wirenet.Base.{
  ℕ, ◌≡◌, ◌-◌, ◌*◌, ◌^◌, ◌<◌, ◌≤◌, refl, ap, true, none, some, [], ◌∷◌, ◌++◌, arith, Bytes, length,
  replicate, length-replicate, put_uint32, ltb, ◌==◌, min, if◌then◌else◌,
}
use go_wirenet.Base.Int.{ℤ, pos, negsuc}
use go_wirenet.Go.{ok, panic}
use go_wirenet.Io.Chunked.{Wires, writer, reader-Delivers, writer-IsWriter}
use go_wirenet.Stream.Defs.{new_stream, buf_size}
use go_wirenet.Stream.Transfer.{write_to}
use go_wirenet.Stream.ReaderWriter.{new_reader, fill, writer_write}
use go_wirenet.Stream.Boundaries.{write_to-writer_write}
use go_wirenet.Stream.Filling.{fill_split}
use go_wirenet.Wire.Backoff.{Floats, IsDouble, default_retry_policy, default_retry_policy_doubles}
use go_wirenet.Tests.Streams.{conn, echo}

abbrev long_text : Bytes
long_text = replicate 1500 7

abbrev idle : Wires
idle = record { inbox = []; outbox = [] }

-- What the write has sent, at the other end.
abbrev received : Wires
received = record {
  inbox = (writer_write conn echo long_text idle).1.outbox ++ (9 ∷ []);
  outbox = [];
}

long_text-length : length long_text ≡ 1500
long_text-length = length-replicate {A = ℕ} 1500 7

write_to-writer_write_example :
    ((writer_write conn echo long_text idle).0 ≡ (length long_text, none))
    × ((write_to conn writer 7 echo received).0 ≡ panic)
unfolding new_stream
write_to-writer_write_example =
    write_to-writer_write conn writer-IsWriter (λ x p. refl) echo long_text idle refl
      (omega (arith, long_text-length)) conn writer (reader-Delivers 12 (omega arith)) (9 ∷ []) 5
      echo received (omega (arith, long_text-length)) refl refl
      (length-replicate {A = ℕ} buf_size 0) (λ out e. ap (λ b. b ++ (9 ∷ [])) e)

abbrev three : Wires
three = record { inbox = 1 ∷ 2 ∷ 3 ∷ []; outbox = [] }

abbrev first_half : Bytes
first_half = replicate 12 5

abbrev second_half : Bytes
second_half = replicate 12 6

-- A chunk of 24 bytes, of which a read gives 12.
abbrev halves : Wires
halves = record { inbox = put_uint32 24 ++ (first_half ++ second_half); outbox = [] }

fill_split_example : (fill conn 2 (replicate 4 0) new_reader halves).0 ≡ (
  ok none,
  record new_reader { buf = some ([] ++ (second_half ++ replicate (length first_half) 0)) },
  idle,
)
unfolding put_uint32
fill_split_example =
    fill_split conn (reader-Delivers 12 (omega arith)) (replicate 4 0) (first_half ++ second_half)
      new_reader 0 24 halves (omega arith) (omega arith) refl refl first_half second_half
      (record { inbox = second_half; outbox = [] }) idle (omega arith) (omega arith) (omega arith)
      refl refl

-- Whole numbers in place of floating point numbers.
abbrev whole : ℤ → ℕ
whole (pos n) = n
whole (negsuc n) = 0

abbrev clip : ℕ → ℤ
clip m = if ltb m (2 ^ 63) then pos m else pos (2 ^ 63 - 1)

abbrev pub numbers : Floats
numbers = record {
  Float = ℕ;
  of_int = whole;
  pow2 = λ k. 2 ^ k;
  mul = λ a b. b * a;
  trunc = clip;
  same = λ a b. a == b;
}

clip_small : (m : ℕ) → m < 2 ^ 63 → clip m ≡ pos m
clip_small m h = ground arith

clip_large : (m : ℕ) → 2 ^ 63 ≤ m → clip m ≡ pos (2 ^ 63 - 1)
clip_large m h = ground arith

==_self : (m : ℕ) → (m == m) ≡ true
==_self m = ground arith

numbers-IsDouble : IsDouble numbers
numbers-IsDouble = record {
  exact = λ n k above small fits. (clip_small (n * 2 ^ k) fits, ==_self (n * 2 ^ k));
  beyond = λ n k above small big same. (2 ^ 63 - 1, clip_large (n * 2 ^ k) big, omega arith);
}

default_retry_policy_doubles_example :
    default_retry_policy numbers (pos 5) (pos 1000) 3 ≡ pos (min (5 * 2 ^ 3) 1000)
default_retry_policy_doubles_example =
    default_retry_policy_doubles numbers numbers-IsDouble 5 1000 3 (omega arith) (omega arith)
      (omega arith)
