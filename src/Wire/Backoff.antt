-- ===== src/Wire/Backoff.antt =====
-- DefaultRetryPolicy (options.go): how long a client waits before it dials again. The language's
-- floating point numbers are a parameter.
use go_wirenet.Base.{
  ℕ, ◌-◌, ◌*◌, ◌^◌, ◌≤◌, ◌<◌, ◌≡◌, refl, ap, ◌∙◌, Bool, true, false, not, ◌||◌, arith, ltb, min,
  if◌then◌else◌, Bool-cases, inl, inr, lt→ltb, ltb→lt,
}
use native.Mathlib.Decide.{dec_lt}
use go_wirenet.Base.Int.{ℤ, pos, negsuc, ltbℤ}

-- `float64`, with `math.Pow(2, ·)` and the conversions from and to a `time.Duration`.
pub record Floats : Type 1 where
  pub Float : Type 0
  pub of_int : ℤ → Float
  pub pow2 : ℕ → Float
  pub mul : Float → Float → Float
  pub trunc : Float → ℤ
  pub same : Float → Float → Bool

not-lt : (a b : ℕ) → ltb a b ≡ false → b ≤ a
not-lt a b h = ground arith

-- The test at the end, where the product is exact and where it is too large.
fits_or_most : (q most : ℕ) → (if ltb most q then pos most else pos q) ≡ pos (min q most)
fits_or_most q most = elim (Bool-cases (ltb most q)) [
  | inl over ↦ rw over (ap pos (let e : most ≡ min q most = omega (arith, ltb→lt most q over) in e))
  | inr under ↦ rw under (ap pos (let e : q ≡ min q most = omega (arith, not-lt most q under) in e))
]

beyond_most :
    (most : ℕ) (b : Bool) (wait : ℤ)
    → (b ≡ true → (top : ℕ) × (wait ≡ pos top) × (most < top))
    → (if not b || ltbℤ (pos most) wait then pos most else wait) ≡ pos most
beyond_most most false wait h = refl
beyond_most most true wait h = let (top, is_top, k) = h refl in rw (is_top, lt→ltb most top k) refl

module _ (fl : Floats) where
  open fl use {Float, of_int, pow2, mul, trunc, same}

  unfoldable pub default_retry_policy : ℤ → ℤ → ℕ → ℤ
  default_retry_policy least most attempt =
      let m : Float = mul (pow2 attempt) (of_int least) in
      let wait : ℤ = trunc m in if not (same (of_int wait) m) || ltbℤ most wait then most else wait

  -- What the format gives for a number from 1 on. Its product with a power of two is exact where the
  -- number has at most 53 bits, and so is the conversion if the product fits 63 bits. A product of
  -- 2^63 or more, infinity included, is converted to some 64-bit number, which one the language
  -- leaves open; that number as a float is at most 2^63, and it is that only for the numbers from
  -- 2^63 - 512 on, which are rounded up. (0 is left out: 0 times infinity is no number.)
  pub record IsDouble : Type 0 where
    pub exact :
        (n k : ℕ)
        → 0 < n
        → n < 2 ^ 53
        → n * 2 ^ k < 2 ^ 63
        → let m = mul (pow2 k) (of_int (pos n)) in
          (trunc m ≡ pos (n * 2 ^ k)) × (same (of_int (pos (n * 2 ^ k))) m ≡ true)
    pub beyond :
        (n k : ℕ)
        → 0 < n
        → n < 2 ^ 53
        → 2 ^ 63 ≤ n * 2 ^ k
        → let m = mul (pow2 k) (of_int (pos n)) in
          same (of_int (trunc m)) m ≡ true → (v : ℕ) × (trunc m ≡ pos v) × (2 ^ 63 - 512 ≤ v)

  ltbℤ-self : (a : ℤ) → ltbℤ a a ≡ false
  ltbℤ-self (pos a) = ground arith
  ltbℤ-self (negsuc a) = ground arith

  -- Whatever the floating point numbers are, and whatever the signs, the wait is not longer than the
  -- longest one allowed.
  pub default_retry_policy-le :
      (least most : ℤ) (attempt : ℕ) → ltbℤ most (default_retry_policy least most attempt) ≡ false
  unfolding default_retry_policy
  default_retry_policy-le least most attempt = ground (arith, ltbℤ-self most)

  -- With a shortest wait of at least 1 and below 2^53 nanoseconds, and a longest one that is not
  -- negative and below 2^63 - 512, the wait doubles with each attempt up to the longest one, and
  -- never wraps.
  pub default_retry_policy_doubles :
      IsDouble
      → (least most attempt : ℕ) → 0 < least
      → least < 2 ^ 53
      → most < 2 ^ 63 - 512
      → default_retry_policy (pos least) (pos most) attempt ≡ pos (min (least * 2 ^ attempt) most)
  unfolding default_retry_policy
  default_retry_policy_doubles law least most attempt h0 h k =
      elim (dec_lt (least * 2 ^ attempt) (2 ^ 63)) [
        | yes fits ↦
            let (whole, eq) = law.exact least attempt h0 h fits in
            rw (whole, eq) (fits_or_most (least * 2 ^ attempt) most)
        | no large ↦
            let m : Float = mul (pow2 attempt) (of_int (pos least)) in
            let top : most ≡ min (least * 2 ^ attempt) most = omega arith in
            beyond_most most (same (of_int (trunc m)) m) (trunc m) (λ e.
              let (v, is_v, big) = law.beyond least attempt h0 h (omega arith) e in
              (v, is_v, omega arith))
            ∙ ap pos top
      ]
