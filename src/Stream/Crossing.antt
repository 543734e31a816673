-- ===== src/Stream/Crossing.antt =====
-- A whole transfer: ReadFrom at one end, WriteTo at the other.
use go_wirenet.Base.{
  ℕ, ◌+◌, ◌<◌, ◌≤◌, ◌≡◌, ap, subst, ◌∙◌, false, some, none, List, [], ◌∷◌, ◌++◌, arith, Bytes,
  length, flatten, length-append,
}
use go_wirenet.Go.{eof}
use go_wirenet.Io.{Reader, Writer, Delivers, IsWriter}
use go_wirenet.Stream.Conn.{Conn}
use go_wirenet.Stream.Defs.{Stream, buf_size}
use go_wirenet.Stream.Transfer.{read_from, write_to}
use go_wirenet.Stream.Chunks.{chunked, AreChunks}
use go_wirenet.Stream.Delivery.{Moves, write_to-Moves}
use go_wirenet.Stream.Chunking.{read_from-Cuts}

-- There are no more chunks than bytes.
length-AreChunks :
    (limit : ℕ) (cs : List Bytes) → AreChunks limit cs → length cs ≤ length (flatten cs)
length-AreChunks limit [] are = omega arith
length-AreChunks limit (c ∷ cs) are =
    omega (arith, are.0, length-append c (flatten cs), length-AreChunks limit cs are.2)

module _ {S : Type 0} (c : Conn S) (src : Reader S) {pending sent : S → Bytes}
    (law : Delivers src pending) (takes : IsWriter c.writer sent)
    (fine : (x : S) (p : Bytes) → (c.writer.write x p).1 ≡ none)
    (ends : (x : S) (n : ℕ) → pending x ≡ [] → (src.read x n).1 ≡ some eof)
    (reads_apart : (x : S) (n : ℕ) → sent (src.read x n).2 ≡ sent x)
    (writes_apart : (x : S) (p : Bytes) → pending (c.writer.write x p).2 ≡ pending x) {T : Type 0}
    (d : Conn T) (dst : Writer T) {arrived got : T → Bytes} (law' : Delivers d.reader arrived)
    (takes' : IsWriter dst got) (fine' : (x : T) (p : Bytes) → (dst.write x p).1 ≡ none)
    (reads_apart' : (x : T) (n : ℕ) → got (d.reader.read x n).2 ≡ got x)
    (writes_apart' : (x : T) (p : Bytes) → arrived (dst.write x p).2 ≡ arrived x) where
  -- Both streams are open, both ends keep to the laws above, and the fuel exceeds the length of
  -- `body`. When what ReadFrom added to the connection at one end, from a source that holds `body`
  -- and ends, arrives at the other end, WriteTo there ends with no error and hands its writer
  -- exactly `body`, however the reads cut it (a header word that has arrived is read in one piece);
  -- what arrived behind it stays unread.
  pub write_to-read_from :
      (body rest : Bytes) (fuel fuel' : ℕ) (s : Stream) (s' : Stream) (x : S) (y : T)
      → length body < fuel
      → length body + buf_size + 2 < fuel'
      → s.closed ≡ false
      → s'.closed ≡ false
      → length s.buf ≡ buf_size
      → length s'.buf ≡ buf_size
      → length s'.hdr ≡ 4
      → pending x ≡ body
      → ((out : Bytes)
          → sent (read_from c src fuel s x).2 ≡ sent x ++ out
          → arrived y ≡ out ++ rest)
      → Moves d dst law' takes' fine' reads_apart' writes_apart' 0 body rest y
          (write_to d dst fuel' s' y)
  write_to-read_from body rest fuel fuel' s s' x y h h' is_open is_open' room room' header p
        carried =
      let (cs, s1, x1, are, flat, ran, out, _) =
        read_from-Cuts c src law takes fine ends reads_apart writes_apart fuel body s x h is_open
          room p in
      let there : arrived y ≡ chunked cs ++ rest =
        carried (chunked cs) (ap (λ g. sent g.2) ran ∙ out) in
      let few : length cs ≤ length body =
        subst (λ b. length cs ≤ length b) flat (length-AreChunks buf_size cs are) in
      subst
        (λ b.
          Moves d dst law' takes' fine' reads_apart' writes_apart' 0 b rest y
            (write_to d dst fuel' s' y))
        flat
        (write_to-Moves d dst law' takes' fine' reads_apart' writes_apart' cs fuel' rest s' y are
          is_open' header room' (omega arith) there)
