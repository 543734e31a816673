-- ===== src/Frame/Written.antt =====
-- What Encode writes, on any writer that keeps to io.Writer.
use go_wirenet.Base.{
  ℕ, ◌+◌, ◌≤◌, ◌≡◌, ◌≢◌, ◌↔◌, sym, subst, ap, ◌∙◌, Option, some, none, ◌++◌, arith, Bytes, length,
  take, take_all, length-append, put_uint32,
}
use go_wirenet.Go.{Go, ok, panic, stuck, Error}
use go_wirenet.Io.{Writer, IsWriter}
use go_wirenet.Io.Copy.{copy_n-prefix}
use go_wirenet.Frame.Format.{header, header_length, frame_bytes}
use go_wirenet.Frame.Encoder.{finish, encode_new}

length-frame_bytes :
    (t : ℕ) (cmd body : Bytes)
    → length (frame_bytes t cmd body) ≡ length cmd + length body + header_length
unfolding put_uint32
length-frame_bytes t cmd body = omega (
  arith,
  length-append (header t (length cmd) (length body)) (cmd ++ body),
  length-append cmd body,
)

-- `Encode` succeeds exactly when everything is sent, and otherwise returns an error.
finish_cases :
    {S : Type 0} (n k : ℕ) (e : Option Error) (u : Bytes) (s : S)
    → (e ≡ none) ↔ (k ≡ n)
    → (((finish n (ok (k, e, u), s)).0 ≡ ok tt) ↔ (k ≡ n))
      × ((finish n (ok (k, e, u), s)).0 ≢ stuck)
      × ((finish n (ok (k, e, u), s)).0 ≢ panic)
      × ((finish n (ok (k, e, u), s)).2 ≡ s)
finish_cases n k none u s h = ground arith
finish_cases n k (some e) u s h = ground arith

module _ {S : Type 0} (w : Writer S) {sent : S → Bytes} (law : IsWriter w sent) where
  -- A run of `Encode` from `s`: `k` bytes of the frame are sent, and it succeeds if that is all.
  abbrev pub Sends : Bytes → S → Go (Unit {0}) × S → Type 0
  Sends frame s r =
      (k : ℕ) × (k ≤ length frame)
      × (sent r.1 ≡ sent s ++ take k frame)
      × ((r.0 ≡ ok tt) ↔ (k ≡ length frame))
      × (r.0 ≢ stuck)
      × (r.0 ≢ panic)

  -- `Encode` on a new encoder ends, has sent a prefix of the frame, and succeeds exactly when it
  -- has sent all of it.
  pub encode_new-Sends :
      (t : ℕ) (cmd body : Bytes) (s : S)
      → Sends (frame_bytes t cmd body) s (encode_new w t cmd body s)
  unfolding encode_new
  encode_new-Sends t cmd body s =
      let (k, e, u, s', ran, fits, sends, done) = copy_n-prefix w law (frame_bytes t cmd body) s in
      let (a, b, c, d) = finish_cases (length (frame_bytes t cmd body)) k e u s' done in
      let out = finish (length (frame_bytes t cmd body)) (ok (k, e, u), s') in
      let same : encode_new w t cmd body s ≡ (out.0, out.2) =
        rw (← length-frame_bytes t cmd body, ran) in
      subst (Sends (frame_bytes t cmd body) s) (sym same) (k, fits, ap sent d ∙ sends, a, b, c)

-- A frame whose Encode succeeds has been sent.
pub encode_new-sent :
    {S : Type 0} (w : Writer S) {sent : S → Bytes}
    → IsWriter w sent
    → (t : ℕ) (cmd body : Bytes) (s s1 : S) → encode_new w t cmd body s ≡ (ok tt, s1)
    → sent s1 ≡ sent s ++ frame_bytes t cmd body
encode_new-sent w {sent} law t cmd body s s1 done =
    let (k, fits, sends, all, _, _) = encode_new-Sends w law t cmd body s in
    let whole = all.0 (ap (λ g. g.0) done) in
    ap (λ g. sent g.1) (sym done)
    ∙ sends
    ∙ ap (◌++◌ (sent s)) (take_all k (frame_bytes t cmd body) (omega arith))
