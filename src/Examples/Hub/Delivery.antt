-- ===== src/Examples/Hub/Delivery.antt =====
-- The greetings of one node on the standard output of the other (examples/hub).
use go_wirenet.Base.{
  ℕ, zero, suc, text, ◌/◌, ◌%◌, ◌+◌, ◌<◌, ◌≤◌, ◌≡◌, refl, sym, ◌∙◌, false, none, List, [], ◌∷◌,
  ◌++◌, append-nil, append_assoc, arith, Bytes, length, flatten, length-append, ap, subst, All,
}
use go_wirenet.Go.{ok}
use go_wirenet.Io.{Writer, Delivers, IsWriter}
use go_wirenet.Stream.Conn.{Conn}
use go_wirenet.Stream.Defs.{Stream, buf_size}
use go_wirenet.Stream.Transfer.{write_to}
use go_wirenet.Stream.Chunks.{chunked, AreChunks}
use go_wirenet.Stream.Delivery.{IsReady}
use go_wirenet.Stream.Parts.{write_part, sent-write_part}
use go_wirenet.Stream.Messages.{write_to-Takes}
use go_wirenet.Examples.Transfer.Server.{Ran}
use go_wirenet.Examples.Hub.Nodes.{
  decimal, greetings, hello_parts, say_parts, say_hello, print_rounds,
}

-- The parts on the wire, and joined.
abbrev pub wire_bytes : List (List Bytes) → Bytes
wire_bytes [] = []
wire_bytes (ps ∷ pss) = chunked ps ++ wire_bytes pss

abbrev pub joined_parts : List (List Bytes) → Bytes
joined_parts [] = []
joined_parts (ps ∷ pss) = flatten ps ++ joined_parts pss

module _ {S : Type 0} (c : Conn S) {sent : S → Bytes} (takes : IsWriter c.writer sent)
    (fine : (x : S) (p : Bytes) → (c.writer.write x p).1 ≡ none) (s : Stream)
    (is_open : s.closed ≡ false) where
  sent-say_parts :
      (pss : List (List Bytes)) (x : S)
      → All (AreChunks buf_size) pss
      → sent (say_parts c s pss x) ≡ sent x ++ wire_bytes pss
  unfolding say_parts
  sent-say_parts [] x are = sym (append-nil (sent x))
  sent-say_parts (ps ∷ pss) x are =
      sent-say_parts pss (write_part c s ps x) are.1
      ∙ ap (λ t. t ++ wire_bytes pss)
          (sent-write_part c takes fine s is_open buf_size ps x (omega arith) are.0)
      ∙ append_assoc (sent x) (chunked ps) (wire_bytes pss)

length-decimal : (fuel n : ℕ) → length (decimal fuel n) ≤ fuel
unfolding decimal
length-decimal zero n = omega arith
length-decimal (suc fuel) n = ground (
  arith,
  length-decimal fuel (n / 10),
  length-append (decimal fuel (n / 10)) ((48 + n % 10) ∷ []),
)

greetings-AreChunks :
    (part : Bytes) (i count : ℕ) → length part ≤ 5 → AreChunks buf_size (greetings part i count)
unfolding greetings
greetings-AreChunks part i zero h = tt
greetings-AreChunks part i (suc count) h =
    let tail : Bytes = text " Hello from nodeA" ++ 10 ∷ [] in
    let size : length (decimal 2 i ++ (text ". " ++ (part ++ tail)))
        ≡ length (decimal 2 i) + (2 + (length part + 18)) =
      omega (
        arith,
        length-append (decimal 2 i) (text ". " ++ (part ++ tail)),
        length-append part tail,
      ) in
    (
      omega (arith, size),
      omega (arith, size, length-decimal 2 i),
      greetings-AreChunks part (suc i) count h,
    )

hello_parts-AreChunks : All (AreChunks buf_size) hello_parts
unfolding hello_parts
hello_parts-AreChunks = (
  greetings-AreChunks (text "part1") 0 10 (omega arith),
  (
    greetings-AreChunks (text "part2") 10 10 (omega arith),
    (greetings-AreChunks (text "part3") 20 10 (omega arith), tt),
  ),
)

three_parts : length hello_parts ≡ 3
unfolding hello_parts
three_parts = refl

module _ {T : Type 0} (d : Conn T) (stdout : Writer T) {arrived printed : T → Bytes}
    (law : Delivers d.reader arrived) (takes : IsWriter stdout printed)
    (fine : (y : T) (p : Bytes) → (stdout.write y p).1 ≡ none)
    (reads_apart : (y : T) (n : ℕ) → printed (d.reader.read y n).2 ≡ printed y)
    (writes_apart : (y : T) (p : Bytes) → arrived (stdout.write y p).2 ≡ arrived y) where
  -- After the rounds of the loop from `y` on: `body` is printed and `rest` has not been read.
  abbrev pub Prints : Bytes → Bytes → T → Ran T → Type 0
  Prints body rest y g =
      (s' : Stream) × (y' : T) × (g ≡ (ok tt, s', y'))
      × IsReady buf_size s'
      × (printed y' ≡ printed y ++ body)
      × (arrived y' ≡ rest)

  next_round :
      (fuel rounds n : ℕ) (s s' : Stream) (y y' : T)
      → s.closed ≡ false
      → write_to d stdout fuel s y ≡ (ok (n, none), s', y')
      → print_rounds d stdout fuel (suc rounds) s y ≡ print_rounds d stdout fuel rounds s' y'
  unfolding print_rounds
  next_round fuel rounds n s s' y y' is_open ran = rw (ran, is_open) refl

  print_none : (fuel : ℕ) (s : Stream) (y : T) → print_rounds d stdout fuel 0 s y ≡ (ok tt, s, y)
  unfolding print_rounds
  print_none fuel s y = refl

  print_rounds-Prints :
      (pss : List (List Bytes)) (rest : Bytes) (fuel : ℕ) (s : Stream) (y : T)
      → All (AreChunks buf_size) pss
      → IsReady buf_size s
      → length (arrived y) + buf_size + 2 < fuel
      → arrived y ≡ wire_bytes pss ++ rest
      → Prints (joined_parts pss) rest y (print_rounds d stdout fuel (length pss) s y)
  print_rounds-Prints [] rest fuel s y are ready h p =
      (s, y, print_none fuel s y, ready, sym (append-nil (printed y)), p)
  print_rounds-Prints (ps ∷ pss) rest fuel s y are ready h p =
      let come : arrived y ≡ chunked ps ++ (wire_bytes pss ++ rest) =
        p ∙ append_assoc (chunked ps) (wire_bytes pss) rest in
      let (s1, y1, ran, ready1, out, left) =
        write_to-Takes d stdout law takes fine reads_apart writes_apart ps (wire_bytes pss ++ rest)
          fuel s y are.0 ready h come in
      let fewer : length (arrived y1) ≤ length (arrived y) = omega (
        arith,
        ap length left,
        ap length come,
        length-append (chunked ps) (wire_bytes pss ++ rest),
      ) in
      let (s', y', rest_ran, ready', out', left') =
        print_rounds-Prints pss rest fuel s1 y1 are.1 ready1 (omega arith) left in
      (
        s',
        y',
        next_round fuel (length pss) (0 + length (flatten ps)) s s1 y y1 ready.is_open ran
            ∙ rest_ran,
        ready',
        out'
            ∙ ap (λ t. t ++ joined_parts pss) out
            ∙ append_assoc (printed y) (flatten ps) (joined_parts pss),
        left',
      )

  -- What node A's hook writes, thirty greetings in three parts, appears on node B's standard output
  -- whole and in order after three rounds of its handler's loop, once it has arrived, and what
  -- follows is not read; the connection takes every write, and the streams are open.
  pub print_rounds-say_hello :
      {S : Type 0} (c : Conn S) {sent : S → Bytes}
      → IsWriter c.writer sent
      → ((x : S) (p : Bytes) → (c.writer.write x p).1 ≡ none)
      → (rest : Bytes) (fuel : ℕ) (s s' : Stream) (x : S) (y : T) → s.closed ≡ false
      → IsReady buf_size s'
      → length (arrived y) + buf_size + 2 < fuel
      → ((out : Bytes) → sent (say_hello c s x) ≡ sent x ++ out → arrived y ≡ out ++ rest)
      → Prints (joined_parts hello_parts) rest y (print_rounds d stdout fuel 3 s' y)
  unfolding say_hello
  print_rounds-say_hello c takes' fine' rest fuel s s' x y is_open ready h carried =
      subst (λ n. Prints (joined_parts hello_parts) rest y (print_rounds d stdout fuel n s' y))
        three_parts
        (print_rounds-Prints hello_parts rest fuel s' y hello_parts-AreChunks ready h (
          carried (wire_bytes hello_parts)
            (sent-say_parts c takes' fine' s is_open hello_parts x hello_parts-AreChunks)))
