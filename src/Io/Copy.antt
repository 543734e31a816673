-- ===== src/Io/Copy.antt =====
-- io.CopyN from a bytes.Buffer, as frame.go calls it.
use go_wirenet.Base.{
  ℕ, zero, suc, ◌+◌, ◌≤◌, ◌<◌, ◌≡◌, ◌↔◌, Bool-cases, refl, sym, ap, ◌∙◌, Option, none, some, [],
  ◌∷◌, ◌++◌, append-nil, append_assoc, arith, Bytes, text, length, take, length-take, take_all,
  length-drop, take-take, take-add, drop, drop-length-take, ltb, ◌==◌, if◌then◌else◌, Option-cases,
  inl, inr,
}
use go_wirenet.Go.{Error, eof, short_write, other, Go, ok, err, panic, stuck}
use go_wirenet.Io.Streams.{Writer, IsWriter}

-- The buffer of io.Copy.
abbrev pub copy_size : ℕ
copy_size = 32768

-- The bytes that were written, the error, and the bytes that were not taken out of the buffer.
abbrev pub Copied : Type 0
Copied = ℕ × Option Error × Bytes

-- Fewer bytes than asked for, with no error, is io.EOF; as many, with an error, is none.
abbrev pub settle {ℓ} : {S : Type ℓ} → ℕ → Bytes → Go Copied × S → Go Copied × S
settle n after (ok (written, e, unread), s) =
    if written == n
    then (ok (written, none, unread ++ after), s)
    else (ok (written, elim e [ none ↦ some eof | some x ↦ some x ], unread ++ after), s)
settle n after (err e, s) = (err e, s)
settle n after (panic, s) = (panic, s)
settle n after (stuck, s) = (stuck, s)

settle-error :
    {S : Type 0} (n : ℕ) (after : Bytes) (k : ℕ) (e : Option Error) (u : Bytes) (s : S)
    → (e' : Option Error) × (settle n after (ok (0 + k, e, u), s) ≡ (ok (k, e', u ++ after), s))
      × ((e' ≡ none) ↔ (k ≡ n))
settle-error n after k e u s = elim (Bool-cases (k == n)) [
  | inl all ↦ (none, ground arith, ground arith)
  | inr less ↦ (some (elim e [ none ↦ eof | some x ↦ x ]), ground arith, ground arith)
]

module _ {S : Type 0} (w : Writer S) where
  -- The loop of io.Copy, with a buffer of `size` bytes, on what is left to copy.
  unfoldable pub copy_loop : ℕ → ℕ → Bytes → ℕ → S → Go Copied × S
  copy_loop size fuel [] written s = (ok (written, none, []), s)
  copy_loop size zero (x ∷ xs) written s = (stuck, s)
  copy_loop size (suc fuel) (x ∷ xs) written s =
      let chunk = take size (x ∷ xs) in
      let unread = drop size (x ∷ xs) in
      let (nw, ew, s') = w.write s chunk in
      let rest = copy_loop size fuel unread (written + nw) s' in
      if ltb (length chunk) nw
      then (ok (written, some (other (text "invalid write result")), unread), s')
      else elim ew [
        | some e ↦ (ok (written + nw, some e, unread), s')
        | none ↦
            if nw == length chunk then rest else (ok (written + nw, some short_write, unread), s')
      ]

  -- `io.CopyN(w, buf, n)`, whose buffer has 32 KiB: every round takes a byte at least.
  unfoldable pub copy_n : Bytes → ℕ → S → Go Copied × S
  unfolding copy_loop
  copy_n buf n s = settle n (drop n buf) (copy_loop 32768 (length (take n buf)) (take n buf) 0 s)

  abbrev Progress : (S → Bytes) → Bytes → ℕ → Go Copied × S → S → Type 0
  Progress sent rest written r s =
      (k : ℕ) × (e : Option Error) × (u : Bytes) × (s' : S) × (r ≡ (ok (written + k, e, u), s'))
      × (k ≤ length rest)
      × (sent s' ≡ sent s ++ take k rest)
      × (e ≡ none → k ≡ length rest)

  module _ {sent : S → Bytes} (law : IsWriter w sent) (size : ℕ) (room : 0 < size) where
    -- One write, which may stop early.
    sent-write :
        (rest : Bytes) (s : S) (k : ℕ)
        → (w.write s (take size rest)).0 ≡ k
        → (sent (w.write s (take size rest)).2 ≡ sent s ++ take k rest)
          × (k ≤ length rest)
          × (k ≤ length (take size rest))
    sent-write rest s k e =
        let c : Bytes = take size rest in
        let fits : k ≤ length c = omega (arith, law.within s c) in
        (
          law.takes s c
              ∙ ap (λ m. sent s ++ take m c) e
              ∙ ap (◌++◌ (sent s)) (take-take k size rest (omega (arith, length-take size rest))),
          omega (arith, length-take size rest),
          fits,
        )

    split-chunk :
        (rest : Bytes) (m k : ℕ)
        → m ≡ length (take size rest)
        → take (m + k) rest ≡ take m rest ++ take k (drop size rest)
    split-chunk rest m k e =
        take-add m k rest
        ∙ ap (λ t. take m rest ++ take k t) (ap (λ j. drop j rest) e ∙ drop-length-take size rest)

    copy_loop-Progress :
        (fuel : ℕ) (rest : Bytes) (written : ℕ) (s : S)
        → length rest ≤ fuel
        → Progress sent rest written (copy_loop size fuel rest written s) s
    unfolding copy_loop
    copy_loop-Progress fuel [] written s h =
        (0, none, [], s, ground arith, omega arith, sym (append-nil _), λ _. refl)
    copy_loop-Progress zero (x ∷ xs) written s h = absurd (omega arith)
    copy_loop-Progress (suc fuel) (x ∷ xs) written s h =
        let c : Bytes = take size (x ∷ xs) in
        let u : Bytes = drop size (x ∷ xs) in
        let nw : ℕ = (w.write s c).0 in
        let s1 : S = (w.write s c).2 in
        let (sends, fits, fits') = sent-write (x ∷ xs) s nw refl in
        elim (Option-cases (w.write s c).1) [
          | inl fine ↦
              let full : nw ≡ length c = law.whole s c fine in
              let (k, e, v, s2, ran, k_fits, sends', done) =
                copy_loop-Progress fuel u (written + nw) s1
                  (omega (arith, length-drop size (x ∷ xs))) in
              (
                nw + k,
                e,
                v,
                s2,
                ground arith,
                omega (arith, length-take size (x ∷ xs), length-drop size (x ∷ xs)),
                sends'
                    ∙ ap (λ t. t ++ take k u) sends
                    ∙ append_assoc (sent s) (take nw (x ∷ xs)) (take k u)
                    ∙ ap (◌++◌ (sent s)) (sym (split-chunk (x ∷ xs) nw k full)),
                λ p. omega (arith, done p, length-take size (x ∷ xs), length-drop size (x ∷ xs)),
              )
          | inr (e, failed) ↦ (nw, some e, u, s1, ground arith, fits, sends, λ p. cc)
        ]

  -- io.CopyN of a whole buffer ends, has sent a prefix of it, and reports no error only for all of it.
  pub copy_n-prefix :
      {sent : S → Bytes} (law : IsWriter w sent) (buf : Bytes) (s : S)
      → (k : ℕ) × (e : Option Error) × (u : Bytes) × (s' : S) × (copy_n buf (length buf) s
          ≡ (ok (k, e, u), s'))
        × (k ≤ length buf)
        × (sent s' ≡ sent s ++ take k buf)
        × ((e ≡ none) ↔ (k ≡ length buf))
  unfolding copy_n
  copy_n-prefix law buf s =
      let (k, e, u, s', ran, fits, sends, done) =
        copy_loop-Progress law 32768 (omega arith) (length buf) buf 0 s (omega arith) in
      let (e', settled, fine) = settle-error (length buf) (drop (length buf) buf) k e u s' in
      (
        k,
        e',
        u ++ drop (length buf) buf,
        s',
        rw (take_all (length buf) buf (omega arith), ran) settled,
        fits,
        sends,
        fine,
      )
