-- ===== src/Examples/Keyboard/Shell.antt =====
-- examples/keyboard/client/main.go: `shell` and `payload`; and of examples/keyboard/server/main.go
-- `readCommand`, the test of the loop that calls it, and `exec` once its stream is open. os.Stdin gives a
-- line; os.Stdout is a parameter.
use go_wirenet.Base.{
  ℕ, zero, suc, Bool, true, false, Option, some, none, [], ◌∷◌, Bytes, length, replicate, patch,
  ltb, ◌==◌, if◌then◌else◌,
}
use go_wirenet.Go.{Error, Go, ok, err, panic, stuck}
use go_wirenet.Io.{Writer}
use go_wirenet.Stream.Conn.{Conn}
use go_wirenet.Stream.Defs.{Stream}
use go_wirenet.Stream.Transfer.{Moved, read_from, write_to}
use go_wirenet.Examples.Buffers.{bytes_reader, bytes_buffer, beside}

-- `for i < n { b[i] = 'x'; i++ }`, with `left` rounds left.
unfoldable pub fill_payload : ℕ → ℕ → Bytes → Bytes
fill_payload zero i b = b
fill_payload (suc left) i b = fill_payload left (suc i) (patch i (120 ∷ []) b)

unfoldable pub payload : ℕ → Bytes
unfolding fill_payload
payload n = fill_payload n 0 (replicate n 0)

-- `strings.Trim(text, " ")`: the spaces at the front, and, behind the last byte that is none, at the end.
abbrev pub trim_front : Bytes → Bytes
trim_front [] = []
trim_front (b ∷ bs) = if b == 32 then trim_front bs else b ∷ bs

abbrev pub drop_if_space : ℕ → Bytes → Bytes
drop_if_space b [] = if b == 32 then [] else b ∷ []
drop_if_space b (y ∷ ys) = b ∷ y ∷ ys

abbrev pub trim_back : Bytes → Bytes
trim_back [] = []
trim_back (b ∷ bs) = drop_if_space b (trim_back bs)

-- `readCommand`, for the text that ReadString returned.
unfoldable pub read_command : Bytes → Bytes
read_command line = trim_back (trim_front line)

-- `if len(command) < 2 { continue }`
unfoldable pub is_command : Bytes → Bool
is_command command = if ltb (length command) 2 then false else true

module _ {S : Type 0} (c : Conn S) (fuel : ℕ) where
  -- `shell`, with the buffer that bytes.NewReader reads as the second part of the world.
  unfoldable pub shell : Stream → S → Moved (S × Bytes)
  unfolding payload
  shell s x = read_from (beside c) bytes_reader fuel s (x, payload 1000)

module _ {S O : Type 0} (c : Conn S) (stdout : Writer O) (fuel : ℕ) where
  -- What `exec` returns, and what it leaves of the connection and of os.Stdout.
  abbrev pub Executed : Type 0
  Executed = Go (Option Error) × S × O

  -- An error is returned; without one the next step runs.
  abbrev pub if_fine : (Stream → S → Bytes → Executed) → O → Moved (S × Bytes) → Executed
  if_fine next o (ok (n, none), s, (x, b)) = next s x b
  if_fine next o (ok (n, some e), s, (x, b)) = (ok (some e), x, o)
  if_fine next o (err e, s, (x, b)) = (err e, x, o)
  if_fine next o (panic, s, (x, b)) = (panic, x, o)
  if_fine next o (stuck, s, (x, b)) = (stuck, x, o)

  -- `os.Stdout.Write(buf.Bytes())`
  abbrev pub print_buffer : O → Bytes → S → Executed
  print_buffer o b x = let (_, e, o') = stdout.write o b in (ok e, x, o')

  -- `stream.WriteTo(buf)` with a new buffer, and what follows.
  abbrev pub receive : O → Stream → S → Executed
  receive o s x =
      if_fine (λ _ x' b. print_buffer o b x') o (write_to (beside c) bytes_buffer fuel s (x, []))

  -- `exec` from its first buffer on; `payload.WriteString(command)` makes that the command.
  unfoldable pub exec : Bytes → Stream → S → O → Executed
  exec command s x o =
      if_fine (λ s' x' _. receive o s' x') o (read_from (beside c) bytes_reader fuel s (x, command))
