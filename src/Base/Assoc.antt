-- ===== src/Base/Assoc.antt =====
-- Go's `map[K]V` with string or UUID keys, as an association list with at most one entry for a key.
use mathlib.Core.Path.{◌≡◌, refl}
use mathlib.Core.Logic.{◌≢◌}
use mathlib.Core.List.{List, [], ◌∷◌}
use mathlib.Core.Option.{Option, none, some}
use native.Mathlib.Omega.{arith}
use Prim.Native.Nat.{suc, ◌≤◌}
use go_wirenet.Base.Tests.{if◌then◌else◌}
use go_wirenet.Base.Lists.{length}
use go_wirenet.Base.Octets.{Bytes, same_bytes, same_bytes_iff}

abbrev pub Assoc {ℓ} : Type ℓ → Type ℓ
Assoc V = List (Bytes × V)

module _ {ℓ} {V : Type ℓ} where
  -- `m[k]` with its second result.
  unfoldable pub lookup : Bytes → Assoc V → Option V
  lookup k [] = none
  lookup k ((j, v) ∷ m) = if same_bytes j k then some v else lookup k m

  -- `delete(m, k)`.
  unfoldable pub remove : Bytes → Assoc V → Assoc V
  remove k [] = []
  remove k ((j, v) ∷ m) = let rest = remove k m in if same_bytes j k then rest else (j, v) ∷ rest

  -- `m[k] = v`.
  unfoldable pub insert : Bytes → V → Assoc V → Assoc V
  insert k v m = (k, v) ∷ remove k m

  pub lookup-remove :
      (k j : Bytes) (m : Assoc V)
      → lookup j (remove k m) ≡ (if same_bytes k j then none else lookup j m)
  unfolding lookup remove
  lookup-remove k j [] = ground arith
  lookup-remove k j ((i, v) ∷ m) =
      ground
        (arith, lookup-remove k j m, same_bytes_iff i k, same_bytes_iff i j, same_bytes_iff k j)

  pub lookup-insert :
      (k j : Bytes) (v : V) (m : Assoc V)
      → lookup j (insert k v m) ≡ (if same_bytes k j then some v else lookup j m)
  unfolding lookup insert
  lookup-insert k j v m = ground (arith, lookup-remove k j m)

  pub length-remove-le : (k : Bytes) (m : Assoc V) → length (remove k m) ≤ length m
  unfolding remove
  length-remove-le k [] = omega arith
  length-remove-le k ((j, v) ∷ m) = ground (arith, length-remove-le k m)

  pub length-lookup : (k : Bytes) (m : Assoc V) {v : V} → lookup k m ≡ some v → length m ≢ 0
  unfolding lookup
  length-lookup k [] h e = cc
  length-lookup k (x ∷ m) h e = omega arith

  -- Deleting a missing key changes nothing.
  pub remove_missing : (k : Bytes) (m : Assoc V) → lookup k m ≡ none → remove k m ≡ m
  unfolding lookup remove
  remove_missing k [] h = refl
  remove_missing k ((j, v) ∷ m) h = ground (arith, remove_missing k m)

  -- At most one entry for each key: true of every map that the operations build.
  abbrev pub IsMap : Assoc V → Type ℓ
  IsMap [] = Unit
  IsMap ((k, v) ∷ m) = (lookup k m ≡ none) × IsMap m

  pub remove-IsMap : (k : Bytes) (m : Assoc V) → IsMap m → IsMap (remove k m)
  unfolding lookup remove
  remove-IsMap k [] h = tt
  remove-IsMap k ((j, v) ∷ m) h = ground (arith, lookup-remove k j m, remove-IsMap k m h.1)

  pub insert-IsMap : (k : Bytes) (v : V) (m : Assoc V) → IsMap m → IsMap (insert k v m)
  unfolding insert
  insert-IsMap k v m h =
      (ground (arith, lookup-remove k k m, same_bytes_iff k k), remove-IsMap k m h)

  -- A key that is present accounts for exactly one entry.
  pub length-remove :
      (k : Bytes) (m : Assoc V) {v : V}
      → IsMap m
      → lookup k m ≡ some v
      → suc (length (remove k m)) ≡ length m
  unfolding lookup remove
  length-remove k [] h e = cc
  length-remove k ((j, w) ∷ m) {v} h e =
      ground (arith, length-remove k m {v = v} h.1, remove_missing k m, same_bytes_iff j k)

pub ruleset map_laws = (lookup-remove, lookup-insert)
