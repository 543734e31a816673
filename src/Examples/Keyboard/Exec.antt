-- ===== src/Examples/Keyboard/Exec.antt =====
-- A command of the keyboard server and the shell that answers it (examples/keyboard).
use go_wirenet.Base.{
  ℕ, zero, suc, ◌+◌, ◌*◌, put_uint32, ◌<◌, ◌≤◌, ◌≡◌, refl, sym, ap, ◌∙◌, subst, none, Option, List,
  [], ◌∷◌, ◌++◌, append_assoc, arith, Bytes, length, replicate, patch, patch-append, length-append,
  length-replicate, flatten,
}
use go_wirenet.Go.{Error, Go, ok}
use go_wirenet.Io.{Writer, Delivers, IsWriter}
use go_wirenet.Stream.Conn.{Conn}
use go_wirenet.Stream.Defs.{Stream, buf_size}
use go_wirenet.Stream.Transfer.{read_from}
use go_wirenet.Stream.Chunks.{chunked, AreChunks}
use go_wirenet.Stream.Chunking.{read_from-Cuts, sent-write}
use go_wirenet.Stream.Delivery.{IsReady}
use go_wirenet.Stream.Ready.{read_from-IsReady}
use go_wirenet.Stream.Messages.{write_to-Takes}
use go_wirenet.Examples.Buffers.{
  bytes_reader, bytes_buffer, beside, beside-Delivers, beside-IsWriter, bytes_buffer-IsWriter,
  bytes_reader-Delivers, at_end,
}
use go_wirenet.Examples.Keyboard.Shell.{
  fill_payload, payload, shell, if_fine, print_buffer, receive, exec,
}

fill_payload-fills :
    (left : ℕ) (front : Bytes)
    → fill_payload left (length front) (front ++ replicate left 0) ≡ front ++ replicate left 120
unfolding fill_payload
fill_payload-fills zero front = refl
fill_payload-fills (suc left) front =
    let front' : Bytes = front ++ (120 ∷ []) in
    let longer : suc (length front) ≡ length front' =
      omega (arith, length-append front (120 ∷ [])) in
    let put : patch (length front) (120 ∷ []) (front ++ replicate (suc left) 0)
        ≡ front' ++ replicate left 0 =
      patch-append front (120 ∷ []) (replicate (suc left) 0)
      ∙ sym (append_assoc front (120 ∷ []) (replicate left 0)) in
    (λ i. fill_payload left (longer i) (put i))
    ∙ fill_payload-fills left front'
    ∙ append_assoc front (120 ∷ []) (replicate left 120)

-- The payload is the letter x as often as it was asked for.
pub payload-replicate : (n : ℕ) → payload n ≡ replicate n 120
unfolding payload
payload-replicate n = fill_payload-fills n []

length-payload : (n : ℕ) → length (payload n) ≡ n
length-payload n = ap length (payload-replicate n) ∙ length-replicate n 120

-- A chunk has at least a byte behind its header.
length-chunked :
    (limit : ℕ) (cs : List Bytes)
    → AreChunks limit cs
    → length (chunked cs) ≤ 4 + 5 * length (flatten cs)
unfolding put_uint32
length-chunked limit [] are = omega arith
length-chunked limit (d ∷ cs) are = omega (
  arith,
  are.0,
  length-chunked limit cs are.2,
  length-append (put_uint32 (length d) ++ d) (chunked cs),
  length-append (put_uint32 (length d)) d,
  length-append d (flatten cs),
)

-- The world that ReadFrom of the command leaves.
abbrev pub asked : {S : Type 0} → Conn S → ℕ → Bytes → Stream → S → S
asked c fuel command s x = (read_from (beside c) bytes_reader fuel s (x, command)).2.0

module _ {S O : Type 0} (c : Conn S) (stdout : Writer O) {pending sent : S → Bytes}
    {printed : O → Bytes} (law : Delivers c.reader pending) (takes : IsWriter c.writer sent)
    (fine : (x : S) (p : Bytes) → (c.writer.write x p).1 ≡ none)
    (takes_out : IsWriter stdout printed)
    (fine_out : (o : O) (p : Bytes) → (stdout.write o p).1 ≡ none) where
  exec-prints :
      (command : Bytes) (cs : List Bytes) (rest : Bytes) (fuel : ℕ) (s : Stream) (x : S) (o : O)
      → length command < fuel
      → 5 * length (flatten cs) + length rest + buf_size + 6 < fuel
      → IsReady buf_size s
      → AreChunks buf_size cs
      → pending (asked c fuel command s x) ≡ chunked cs ++ rest
      → ((exec c stdout fuel command s x o).0 ≡ ok none)
        × (printed (exec c stdout fuel command s x o).2 ≡ printed o ++ flatten cs)
  unfolding exec
  exec-prints command cs rest fuel s x o h h' ready are come =
      let (ds, s1, (x1, b1), _, _, ran1, _, _) =
        read_from-Cuts (beside c) bytes_reader bytes_reader-Delivers
          (beside-IsWriter c.writer takes) (λ z p. fine z.0 p) (λ z n e. ap at_end e) (λ z n. refl)
          (λ z p. refl) fuel command s (x, command) h ready.is_open ready.room refl in
      let ready1 : IsReady buf_size s1 =
        subst (λ (g : Go (ℕ × Option Error) × Stream × (S × Bytes)). IsReady buf_size g.1) ran1
          (read_from-IsReady (beside c) bytes_reader buf_size
            (record { within = bytes_reader-Delivers.within }) fuel s (x, command) refl ready) in
      let come1 : pending x1 ≡ chunked cs ++ rest =
        sym (ap (λ (g : Go (ℕ × Option Error) × Stream × (S × Bytes)). pending g.2.0) ran1)
        ∙ come in
      let (s2, (x2, b2), ran2, _, got, _) =
        write_to-Takes (beside c) bytes_buffer (beside-Delivers c.reader law) bytes_buffer-IsWriter
          (λ z p. refl) (λ z n. refl) (λ z p. refl) cs rest fuel s1 (x1, []) are ready1
          (omega (
            arith,
            ap length come1,
            length-append (chunked cs) rest,
            length-chunked buf_size cs are,
          ))
          come1 in
      let ran : exec c stdout fuel command s x o
          ≡ (ok (stdout.write o b2).1, x2, (stdout.write o b2).2) =
        ap (if_fine c stdout fuel (λ s' x' _. receive c stdout fuel o s' x') o) ran1
        ∙ ap (if_fine c stdout fuel (λ _ x' b. print_buffer c stdout fuel o b x') o) ran2 in
      (
        ap (λ g. g.0) ran ∙ ap ok (fine_out o b2),
        ap (λ g. printed g.2) ran
            ∙ sent-write stdout takes_out fine_out o b2
            ∙ ap (◌++◌ (printed o)) got,
      )

  exec-answered :
      {T : Type 0} (d : Conn T) {sent' : T → Bytes}
      → IsWriter d.writer sent'
      → ((y : T) (p : Bytes) → (d.writer.write y p).1 ≡ none)
      → (n : ℕ) (command rest : Bytes) (fuel fuel' : ℕ) (s t : Stream) (x : S) (y : T) (o : O)
      → length command < fuel
      → n < fuel'
      → 5 * n + length rest + buf_size + 6 < fuel
      → IsReady buf_size s
      → IsReady buf_size t
      → ((out : Bytes)
          → sent' (read_from (beside d) bytes_reader fuel' t (y, payload n)).2.0 ≡ sent' y ++ out
          → pending (asked c fuel command s x) ≡ out ++ rest)
      → ((exec c stdout fuel command s x o).0 ≡ ok none)
        × (printed (exec c stdout fuel command s x o).2 ≡ printed o ++ replicate n 120)
  exec-answered d {sent' = sent'} takes' fine' n command rest fuel fuel' s t x y o h1 h2 h3 ready
        ready' carried =
      let size : length (payload n) ≡ n = length-payload n in
      let (cs, t1, y1, are, flat, ran, out, _) =
        read_from-Cuts (beside d) bytes_reader bytes_reader-Delivers
          (beside-IsWriter d.writer takes') (λ z p. fine' z.0 p) (λ z n e. ap at_end e)
          (λ z n. refl) (λ z p. refl) fuel' (payload n) t (y, payload n)
          (subst (λ m. m < fuel') (sym size) h2) ready'.is_open ready'.room refl in
      let (returned, got) =
        exec-prints command cs rest fuel s x o h1
          (subst (λ m. 5 * m + length rest + buf_size + 6 < fuel) (sym (ap length flat ∙ size)) h3)
          ready are (carried (chunked cs) (ap (λ g. sent' g.2.0) ran ∙ out)) in
      (returned, got ∙ ap (◌++◌ (printed o)) (flat ∙ payload-replicate n))

  -- Whatever the command, a session of the keyboard example answers a thousand times the letter x:
  -- once the bytes that the client's shell puts on its stream have arrived behind the server's
  -- ReadFrom of the command, exec returns no error and has written exactly those letters to the
  -- standard output. The streams are open and the writers take everything.
  pub exec-shell :
      {T : Type 0} (d : Conn T) {sent' : T → Bytes}
      → IsWriter d.writer sent'
      → ((y : T) (p : Bytes) → (d.writer.write y p).1 ≡ none)
      → (command rest : Bytes) (fuel fuel' : ℕ) (s t : Stream) (x : S) (y : T) (o : O)
      → length command < fuel
      → 1000 < fuel'
      → 5 * 1000 + length rest + buf_size + 6 < fuel
      → IsReady buf_size s
      → IsReady buf_size t
      → ((out : Bytes)
          → sent' (shell d fuel' t y).2.0 ≡ sent' y ++ out
          → pending (asked c fuel command s x) ≡ out ++ rest)
      → ((exec c stdout fuel command s x o).0 ≡ ok none)
        × (printed (exec c stdout fuel command s x o).2 ≡ printed o ++ replicate 1000 120)
  unfolding shell
  exec-shell d takes' fine' command rest fuel fuel' s t x y o h1 h2 h3 ready ready' carried =
      exec-answered d takes' fine' 1000 command rest fuel fuel' s t x y o h1 h2 h3 ready ready'
        carried
