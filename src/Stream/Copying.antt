-- ===== src/Stream/Copying.antt =====
-- pipe on a source that ends.
use go_wirenet.Base.{
  ℕ, zero, suc, ◌+◌, ◌<◌, ◌≡◌, ◌≢◌, sym, ap, ◌∙◌, some, none, Option, [], ◌∷◌, ◌++◌, append_assoc,
  append-nil, arith, Bytes, length, length-append, nil_of_length,
}
use go_wirenet.Go.{Go, Error, ok, eof}
use go_wirenet.Io.{Reader, Writer, Delivers, IsWriter}
use go_wirenet.Stream.Chunking.{sent-write}
use go_wirenet.Stream.Pipe.{pipe_loop, pipe}

module _ {S : Type 0} (src : Reader S) (dst : Writer S) (limit fuel : ℕ) (s : S) where
  abbrev got : Bytes
  got = (src.read s limit).0

  abbrev after : S
  after = (src.read s limit).2

  copy_round :
      (src.read s limit).1 ≡ none
      → (dst.write after got).1 ≡ none
      → (dst.write after got).0 ≡ length got
      → pipe_loop src dst limit (suc fuel) s ≡ pipe_loop src dst limit fuel (dst.write after got).2
  unfolding pipe_loop
  copy_round fine written whole = ground arith

  end_round :
      (src.read s limit).1 ≡ some eof → pipe_loop src dst limit (suc fuel) s ≡ (ok none, after)
  unfolding pipe_loop
  end_round done = ground arith

module _ {S : Type 0} (src : Reader S) (dst : Writer S) {pending sent : S → Bytes}
    (law : Delivers src pending) (takes : IsWriter dst sent)
    (fine : (x : S) (p : Bytes) → (dst.write x p).1 ≡ none)
    (ends : (x : S) (n : ℕ) → pending x ≡ [] → (src.read x n).1 ≡ some eof)
    (reads_apart : (x : S) (n : ℕ) → sent (src.read x n).2 ≡ sent x)
    (writes_apart : (x : S) (p : Bytes) → pending (dst.write x p).2 ≡ pending x) where
  -- The copy of `body`: no error, all of it written in order, and nothing left.
  abbrev pub Copies : Bytes → S → Go (Option Error) × S → Type 0
  Copies body s g = (s' : S) × (g ≡ (ok none, s')) × (sent s' ≡ sent s ++ body) × (pending s' ≡ [])

  pipe_loop-Copies :
      (limit fuel : ℕ) (body : Bytes) (s : S)
      → 0 < limit
      → length body < fuel
      → pending s ≡ body
      → Copies body s (pipe_loop src dst limit fuel s)
  pipe_loop-Copies limit zero body s pos h p = absurd (omega arith)
  pipe_loop-Copies limit (suc fuel) [] s pos h p =
      let x : S = (src.read s limit).2 in
      (
        x,
        end_round src dst limit fuel s (ends s limit p),
        reads_apart s limit ∙ sym (append-nil (sent s)),
        nil_of_length (pending x) (
            omega (
              arith,
              length-append (src.read s limit).0 (pending x),
              ap length (law.front s limit ∙ p),
            )),
      )
  pipe_loop-Copies limit (suc fuel) (y ∷ ys) s pos h p =
      let d : Bytes = (src.read s limit).0 in
      let x1 : S = (src.read s limit).2 in
      let x2 : S = (dst.write x1 d).2 in
      let waiting : pending s ≢ [] = λ e. cc in
      let d_pos : 0 < length d = law.some_bytes s limit pos waiting in
      let cut : d ++ pending x1 ≡ y ∷ ys = law.front s limit ∙ p in
      let total : length d + length (pending x1) ≡ length (y ∷ ys) =
        sym (length-append d (pending x1)) ∙ ap length cut in
      let (s', ran, out, end) =
        pipe_loop-Copies limit fuel (pending x1) x2 pos (omega arith) (writes_apart x1 d) in
      (
        s',
        copy_round src dst limit fuel s (law.no_error s limit waiting) (fine x1 d)
              (takes.whole x1 d (fine x1 d))
            ∙ ran,
        out
            ∙ ap (λ t. t ++ pending x1)
                (sent-write dst takes fine x1 d ∙ ap (λ t. t ++ d) (reads_apart s limit))
            ∙ append_assoc (sent s) d (pending x1)
            ∙ ap (◌++◌ (sent s)) cut,
        end,
      )

  -- pipe, from a source that holds `body` and ends, to a connection that takes every write: it
  -- ends with no error and has written exactly `body`, however the reads cut it.
  pub pipe-Copies :
      (fuel : ℕ) (body : Bytes) (s : S)
      → length body < fuel
      → pending s ≡ body
      → Copies body s (pipe src dst fuel s)
  unfolding pipe
  pipe-Copies fuel body s h p = pipe_loop-Copies 1024 fuel body s (omega arith) h p
