-- ===== src/Base/Lists.antt =====
-- Lists measured by native numbers, Go's slices of them, and the lemmas on both.
use Prim.Native.Nat.{ℕ, zero, suc, ◌+◌, ◌-◌, ◌≤◌, min}
use mathlib.Core.Path.{◌≡◌, refl, ap, sym, ◌∙◌}
use mathlib.Core.Bool.{◌&&◌}
use mathlib.Core.List.{List, [], ◌∷◌, ◌++◌}
use mathlib.Core.Option.{Option, none, some}
use native.Mathlib.Omega.{arith}
use go_wirenet.Base.Tests.{leb, le→leb, if◌then◌else◌}

module _ {ℓ} {A : Type ℓ} where
  abbrev pub length : List A → ℕ
  length [] = 0
  length (x ∷ xs) = suc (length xs)

  pub length-append : (xs ys : List A) → length (xs ++ ys) ≡ length xs + length ys
  length-append [] ys = omega arith
  length-append (x ∷ xs) ys = omega (arith, length-append xs ys)

  abbrev pub take : ℕ → List A → List A
  take zero xs = []
  take (suc n) [] = []
  take (suc n) (x ∷ xs) = x ∷ take n xs

  abbrev pub drop : ℕ → List A → List A
  drop zero xs = xs
  drop (suc n) [] = []
  drop (suc n) (x ∷ xs) = drop n xs

  abbrev pub replicate : ℕ → A → List A
  replicate zero a = []
  replicate (suc n) a = a ∷ replicate n a

  abbrev pub flatten : List (List A) → List A
  flatten [] = []
  flatten (xs ∷ xss) = xs ++ flatten xss

module _ {ℓ} {A : Type ℓ} where
  pub take-append-drop : (n : ℕ) (xs : List A) → take n xs ++ drop n xs ≡ xs
  take-append-drop zero xs = refl
  take-append-drop (suc n) [] = refl
  take-append-drop (suc n) (x ∷ xs) = ap (◌∷◌ x) (take-append-drop n xs)

  pub length-take : (n : ℕ) (xs : List A) → length (take n xs) ≡ min n (length xs)
  length-take zero xs = omega arith
  length-take (suc n) [] = omega arith
  length-take (suc n) (x ∷ xs) = omega (arith, length-take n xs)

  pub length-drop : (n : ℕ) (xs : List A) → length (drop n xs) ≡ length xs - n
  length-drop zero xs = omega arith
  length-drop (suc n) [] = omega arith
  length-drop (suc n) (x ∷ xs) = omega (arith, length-drop n xs)

  pub length-replicate : (n : ℕ) (a : A) → length (replicate n a) ≡ n
  length-replicate zero a = refl
  length-replicate (suc n) a = ap suc (length-replicate n a)

  -- Cutting at the place where two lists were joined.
  pub take-append : (n : ℕ) (xs ys : List A) → length xs ≡ n → take n (xs ++ ys) ≡ xs
  take-append zero [] ys h = refl
  take-append zero (x ∷ xs) ys h = absurd (omega arith)
  take-append (suc n) [] ys h = absurd (omega arith)
  take-append (suc n) (x ∷ xs) ys h = ap (◌∷◌ x) (take-append n xs ys (omega arith))

  pub drop-append : (n : ℕ) (xs ys : List A) → length xs ≡ n → drop n (xs ++ ys) ≡ ys
  drop-append zero [] ys h = refl
  drop-append zero (x ∷ xs) ys h = absurd (omega arith)
  drop-append (suc n) [] ys h = absurd (omega arith)
  drop-append (suc n) (x ∷ xs) ys h = drop-append n xs ys (omega arith)

  pub take_front : (n : ℕ) (xs ys : List A) → n ≤ length xs → take n (xs ++ ys) ≡ take n xs
  take_front zero xs ys h = refl
  take_front (suc n) [] ys h = absurd (omega arith)
  take_front (suc n) (x ∷ xs) ys h = ap (◌∷◌ x) (take_front n xs ys (omega arith))

  pub drop_front : (n : ℕ) (xs ys : List A) → n ≤ length xs → drop n (xs ++ ys) ≡ drop n xs ++ ys
  drop_front zero xs ys h = refl
  drop_front (suc n) [] ys h = absurd (omega arith)
  drop_front (suc n) (x ∷ xs) ys h = drop_front n xs ys (omega arith)

  pub take_all : (n : ℕ) (xs : List A) → length xs ≤ n → take n xs ≡ xs
  take_all zero [] h = refl
  take_all zero (x ∷ xs) h = absurd (omega arith)
  take_all (suc n) [] h = refl
  take_all (suc n) (x ∷ xs) h = ap (◌∷◌ x) (take_all n xs (omega arith))

  pub drop_all : (n : ℕ) (xs : List A) → length xs ≤ n → drop n xs ≡ []
  drop_all zero [] h = refl
  drop_all zero (x ∷ xs) h = absurd (omega arith)
  drop_all (suc n) [] h = refl
  drop_all (suc n) (x ∷ xs) h = drop_all n xs (omega arith)

  pub nil_of_length : (xs : List A) → length xs ≡ 0 → xs ≡ []
  nil_of_length [] h = refl
  nil_of_length (x ∷ xs) h = absurd (omega arith)

  -- Equal lengths in front leave equal lists behind.
  pub append-cancel :
      (xs ys us vs : List A) → length xs ≡ length ys → xs ++ us ≡ ys ++ vs → (xs ≡ ys) × (us ≡ vs)
  append-cancel [] [] us vs h e = (refl, e)
  append-cancel [] (y ∷ ys) us vs h e = absurd (omega arith)
  append-cancel (x ∷ xs) [] us vs h e = absurd (omega arith)
  append-cancel (x ∷ xs) (y ∷ ys) us vs h e =
      let (p, q) = append-cancel xs ys us vs (omega arith) (cc) in (cc (p), q)

module _ {ℓ} {A : Type ℓ} where
  -- Go's `xs[lo:hi]`, whose capacity is its length: `none` is the run-time panic.
  abbrev pub slice : ℕ → ℕ → List A → Option (List A)
  slice lo hi xs =
      if leb lo hi && leb hi (length xs) then some (take (hi - lo) (drop lo xs)) else none

  -- The buffer after a read has put `bytes` at offset `off`.
  abbrev pub patch : ℕ → List A → List A → List A
  patch off bytes buf = take off buf ++ (bytes ++ drop (off + length bytes) buf)

module _ {ℓ} {A : Type ℓ} where
  pub drop-drop : (m n : ℕ) (xs : List A) → drop m (drop n xs) ≡ drop (n + m) xs
  drop-drop m zero xs = ap (λ k. drop k xs) (omega arith)
  drop-drop zero (suc n) [] = sym (drop_all (suc n + zero) [] (omega arith))
  drop-drop (suc m) (suc n) [] = sym (drop_all (suc n + suc m) [] (omega arith))
  drop-drop m (suc n) (x ∷ xs) =
      drop-drop m n xs
      ∙ ap (λ k. drop k (x ∷ xs)) (let e : suc (n + m) ≡ suc n + m = omega arith in e)

  pub length-patch :
      (off : ℕ) (bytes buf : List A)
      → off + length bytes ≤ length buf
      → length (patch off bytes buf) ≡ length buf
  length-patch off bytes buf h = omega (
    arith,
    length-append (take off buf) (bytes ++ drop (off + length bytes) buf),
    length-append bytes (drop (off + length bytes) buf),
    length-take off buf,
    length-drop (off + length bytes) buf,
  )

  pub take-add : (m n : ℕ) (xs : List A) → take (m + n) xs ≡ take m xs ++ take n (drop m xs)
  take-add zero n xs = ap (λ k. take k xs) (omega arith)
  take-add (suc m) n [] = take_all (suc m + n) [] (omega arith) ∙ sym (take_all n [] (omega arith))
  take-add (suc m) n (x ∷ xs) =
      ap (λ k. take k (x ∷ xs)) (let e : suc m + n ≡ suc (m + n) = omega arith in e)
      ∙ ap (◌∷◌ x) (take-add m n xs)

  pub take-take : (m n : ℕ) (xs : List A) → m ≤ n → take m (take n xs) ≡ take m xs
  take-take zero n xs h = refl
  take-take (suc m) zero xs h = absurd (omega arith)
  take-take (suc m) (suc n) [] h = refl
  take-take (suc m) (suc n) (x ∷ xs) h = ap (◌∷◌ x) (take-take m n xs (omega arith))

  pub drop-length-take : (n : ℕ) (xs : List A) → drop (length (take n xs)) xs ≡ drop n xs
  drop-length-take zero xs = refl
  drop-length-take (suc n) [] = refl
  drop-length-take (suc n) (x ∷ xs) = drop-length-take n xs

  -- A read that took `ys` off the front of `xs ++ rest`, and no more than `xs`.
  pub split-front :
      (ys q xs rest : List A)
      → ys ++ q ≡ xs ++ rest
      → length ys ≤ length xs
      → (q ≡ drop (length ys) xs ++ rest) × (xs ≡ ys ++ drop (length ys) xs)
  split-front [] q xs rest e h = (e, refl)
  split-front (y ∷ ys) q [] rest e h = absurd (omega arith)
  split-front (y ∷ ys) q (x ∷ xs) rest e h =
      let (p, r) = split-front ys q xs rest (cc) (omega arith) in (p, cc (r))

  pub patch-append :
      (front bytes back : List A)
      → patch (length front) bytes (front ++ back) ≡ front ++ (bytes ++ drop (length bytes) back)
  patch-append [] bytes back = ap (λ k. bytes ++ drop k back) (omega arith)
  patch-append (x ∷ front) bytes back =
      ap (λ k. x ∷ (take (length front) (front ++ back) ++ (bytes ++ drop k (x ∷ (front ++ back)))))
        (let e : suc (length front) + length bytes ≡ suc (length front + length bytes) =
            omega arith in
          e)
      ∙ ap (◌∷◌ x) (patch-append front bytes back)

  pub take-drop-append :
      (lo n : ℕ) (xs ys : List A)
      → lo + n ≤ length xs
      → take n (drop lo (xs ++ ys)) ≡ take n (drop lo xs)
  take-drop-append zero zero xs ys h = refl
  take-drop-append zero (suc n) [] ys h = absurd (omega arith)
  take-drop-append zero (suc n) (x ∷ xs) ys h =
      ap (◌∷◌ x) (take-drop-append zero n xs ys (omega arith))
  take-drop-append (suc lo) n [] ys h = ap (take n) (absurd (too_far lo n h))
    where
      too_far : (lo n : ℕ) → suc lo + n ≤ 0 → ⊥
      too_far lo n h = omega arith
  take-drop-append (suc lo) n (x ∷ xs) ys h = take-drop-append lo n xs ys (omega arith)

  pub slice-some :
      (lo hi : ℕ) (xs : List A)
      → lo ≤ hi
      → hi ≤ length xs
      → slice lo hi xs ≡ some (take (hi - lo) (drop lo xs))
  slice-some lo hi xs h k = rw (le→leb lo hi h, le→leb hi (length xs) k)

  -- A slice within the front of a joined list.
  pub slice-append :
      (lo hi : ℕ) (xs ys : List A)
      → lo ≤ hi
      → hi ≤ length xs
      → slice lo hi (xs ++ ys) ≡ some (take (hi - lo) (drop lo xs))
  slice-append lo hi xs ys h k =
      slice-some lo hi (xs ++ ys) h (omega (arith, length-append xs ys))
      ∙ ap some (take-drop-append lo (hi - lo) xs ys (omega arith))

  -- A list cut at two places.
  pub take-take-drop :
      (m n : ℕ) (xs : List A)
      → m ≤ n
      → n ≤ length xs
      → xs ≡ take m xs ++ (take (n - m) (drop m xs) ++ take (length xs - n) (drop n xs))
  take-take-drop m n xs h k = sym (
      ap (λ t. take m xs ++ (take (n - m) (drop m xs) ++ t))
        (take_all (length xs - n) (drop n xs) (omega (arith, length-drop n xs))
          ∙ sym (drop-drop (n - m) m xs ∙ ap (λ j. drop j xs) (omega arith)))
      ∙ ap (◌++◌ (take m xs)) (take-append-drop (n - m) (drop m xs))
      ∙ take-append-drop m xs)
