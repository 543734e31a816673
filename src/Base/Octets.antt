-- ===== src/Base/Octets.antt =====
-- Byte strings as lists of numbers: equality, ASCII text, little-endian words.
use Prim.Native.Char.{code}
use Prim.Native.Nat.{ℕ, ◌+◌, ◌*◌, ◌/◌, ◌%◌, ◌^◌, ◌<◌}
use Prim.Native.String.{String}
use mathlib.Core.Path.{◌≡◌, refl}
use mathlib.Core.Logic.{◌↔◌}
use mathlib.Core.Bool.{Bool, true, false, ◌&&◌}
use mathlib.Core.List.{List, [], ◌∷◌, ◌++◌}
use native.Mathlib.Omega.{arith}
use go_wirenet.Base.Tests.{◌==◌}

-- A Go string or byte slice.
abbrev pub Bytes : Type 0
Bytes = List ℕ

abbrev pub IsByte : ℕ → Type 0
IsByte b = b < 256

abbrev pub All {ℓ κ} : {A : Type ℓ} → (A → Type κ) → List A → Type κ
All P [] = Unit
All P (x ∷ xs) = P x × All P xs

-- The bytes of an ASCII text.
abbrev pub text : String → Bytes
text String.[] = []
text (String.◌∷◌ c s) = code c ∷ text s

-- `==` on Go strings.
unfoldable pub same_bytes : Bytes → Bytes → Bool
same_bytes [] [] = true
same_bytes [] (y ∷ ys) = false
same_bytes (x ∷ xs) [] = false
same_bytes (x ∷ xs) (y ∷ ys) = (x == y) && same_bytes xs ys

pub same_bytes_iff : (xs ys : Bytes) → (same_bytes xs ys ≡ true) ↔ (xs ≡ ys)
unfolding same_bytes
same_bytes_iff [] [] = (λ _. refl, λ _. refl)
same_bytes_iff [] (y ∷ ys) = (λ e. cc, λ e. cc)
same_bytes_iff (x ∷ xs) [] = (λ e. cc, λ e. cc)
same_bytes_iff (x ∷ xs) (y ∷ ys) = ground (arith, same_bytes_iff xs ys)

pub same_bytes_self : (xs : Bytes) → same_bytes xs xs ≡ true
same_bytes_self xs = (same_bytes_iff xs xs).1 refl

-- `binary.LittleEndian.PutUint32` of a uint32.
unfoldable pub put_uint32 : ℕ → Bytes
put_uint32 v = (v % 256) ∷ (v / 256 % 256) ∷ (v / 65536 % 256) ∷ (v / 16777216 % 256) ∷ []

-- `binary.LittleEndian.Uint32` of the first four bytes; Go panics on fewer, which no caller passes.
unfoldable pub uint32 : Bytes → ℕ
uint32 (a ∷ b ∷ c ∷ d ∷ rest) = a + 256 * b + 65536 * c + 16777216 * d
uint32 _ = 0

pub uint32-put_uint32 : (v : ℕ) (rest : Bytes) → v < 2 ^ 32 → uint32 (put_uint32 v ++ rest) ≡ v
unfolding uint32 put_uint32
uint32-put_uint32 v rest h = omega arith
