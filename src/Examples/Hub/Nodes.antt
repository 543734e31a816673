-- ===== src/Examples/Hub/Nodes.antt =====
-- examples/hub/node_a/main.go: what the session's open hook writes on the stream that it has opened; and
-- the loop of the handlers of both nodes. The pauses are left out; os.Stdout is a parameter.
use go_wirenet.Base.{
  ℕ, zero, suc, ◌+◌, ◌/◌, ◌%◌, List, [], ◌∷◌, ◌++◌, Bytes, text, ltb, if◌then◌else◌,
}
use go_wirenet.Go.{ok}
use go_wirenet.Io.{Writer}
use go_wirenet.Stream.Conn.{Conn}
use go_wirenet.Stream.Defs.{Stream}
use go_wirenet.Stream.Transfer.{write_to}
use go_wirenet.Stream.Parts.{write_part}
use go_wirenet.Examples.Transfer.Server.{Ran, drop_results, and_then}

-- `%d` of a number below ten to the power of `fuel`.
unfoldable pub decimal : ℕ → ℕ → Bytes
decimal zero n = []
decimal (suc fuel) n =
    let front = decimal fuel (n / 10) in
    if ltb n 10 then (48 + n) ∷ [] else front ++ ((48 + n % 10) ∷ [])

-- `fmt.Sprintf("%d. partK Hello from nodeA\n", i)` for `count` numbers from `i` on.
unfoldable pub greetings : Bytes → ℕ → ℕ → List Bytes
unfolding decimal
greetings part i zero = []
greetings part i (suc count) =
    (decimal 2 i ++ (text ". " ++ (part ++ (text " Hello from nodeA" ++ 10 ∷ []))))
    ∷ greetings part (suc i) count

-- The three loops of the hook.
unfoldable pub hello_parts : List (List Bytes)
unfolding greetings
hello_parts =
    greetings (text "part1") 0 10
    ∷ greetings (text "part2") 10 10
    ∷ greetings (text "part3") 20 10
    ∷ []

module _ {S : Type 0} (c : Conn S) where
  -- Each loop of Writes ends with a Close of the writer.
  unfoldable pub say_parts : Stream → List (List Bytes) → S → S
  say_parts s [] x = x
  say_parts s (ps ∷ pss) x = say_parts s pss (write_part c s ps x)

  unfoldable pub say_hello : Stream → S → S
  unfolding say_parts hello_parts
  say_hello s x = say_parts s hello_parts x

  -- `for !stream.IsClosed() { stream.WriteTo(os.Stdout) }`, cut after `rounds` rounds.
  unfoldable pub print_rounds : Writer S → ℕ → ℕ → Stream → S → Ran S
  print_rounds stdout fuel zero s x = (ok tt, s, x)
  print_rounds stdout fuel (suc rounds) s x =
      let next = λ (s' : Stream) (x' : S). print_rounds stdout fuel rounds s' x' in
      if s.closed then (ok tt, s, x) else and_then next (drop_results (write_to c stdout fuel s x))
