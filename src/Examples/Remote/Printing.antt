-- ===== src/Examples/Remote/Printing.antt =====
-- What the shell server prints of a session's streams (examples/shell/server/main.go).
use go_wirenet.Base.{
  ℕ, ◌+◌, ◌<◌, ◌≡◌, Bool, ◌||◌, Option, some, none, List, [], ◌∷◌, ◌++◌, Bytes, text, length,
  flatten, same_bytes, if◌then◌else◌,
}
use go_wirenet.Go.{Error, Go, ok, err}
use go_wirenet.Io.{Writer, Delivers, IsWriter}
use go_wirenet.Stream.Conn.{Conn}
use go_wirenet.Stream.Defs.{Stream, buf_size}
use go_wirenet.Stream.Chunks.{chunked, AreChunks}
use go_wirenet.Stream.Delivery.{IsReady}
use go_wirenet.Examples.Remote.Opening.{Opener}
use go_wirenet.Examples.Remote.Commands.{call_line}

-- A stream that was opened, on which `body` arrives.
pub record Answer {S : Type 0} (stdout : Writer S) (printed : S → Bytes) (fuel : ℕ) (body : Bytes)
    (x : S) (g : Go (Stream × Conn S) × S) : Type 0 where
  pub stream : Stream
  pub conn : Conn S
  pub world : S
  pub pending : S → Bytes
  pub chunks : List Bytes
  pub rest : Bytes
  pub opened : g ≡ (ok (stream, conn), world)
  pub ready : IsReady buf_size stream
  pub law : Delivers conn.reader pending
  pub reads_apart : (y : S) (n : ℕ) → printed (conn.reader.read y n).2 ≡ printed y
  pub writes_apart : (y : S) (p : Bytes) → pending (stdout.write y p).2 ≡ pending y
  pub are : AreChunks buf_size chunks
  pub whole : flatten chunks ≡ body
  pub arrived : pending world ≡ chunked chunks ++ rest
  pub enough : length (pending world) + buf_size + 2 < fuel
  pub kept : printed world ≡ printed x

-- A session whose peer answers on its streams with `output`, or refuses to open them.
pub record Answers {S : Type 0} (opener : Opener S) (stdout : Writer S) (printed : S → Bytes)
    (fuel : ℕ) (output : Bytes → Option Bytes) : Type 0 where
  pub answered :
      (name body : Bytes) (x : S)
      → output name ≡ some body
      → Answer stdout printed fuel body x (opener.open_stream name x)
  pub refused :
      (name : Bytes) (x : S)
      → output name ≡ none
      → (e : Error) × (x' : S) × (opener.open_stream name x ≡ (err e, x'))
        × (printed x' ≡ printed x)
  pub closes : (s : Stream) (x : S) → printed (opener.close s x) ≡ printed x
  pub ends : (x : S) → printed (opener.close_session x).1 ≡ printed x

-- The names that the switch knows.
abbrev pub is_known : Bytes → Bool
is_known name =
    same_bytes (text "hostA:envPath") name
    || same_bytes (text "hostB:envPath") name
    || (same_bytes (text "ping") name || same_bytes (text "ifconfig") name)

abbrev or_nothing : Option Bytes → Bytes
or_nothing none = []
or_nothing (some b) = b

-- For each name, in order, the line that tells of it, what the peer says if the name is known, and
-- the end of that line.
abbrev pub outputs : Bytes → (Bytes → Option Bytes) → List Bytes → Bytes
outputs sid output [] = []
outputs sid output (name ∷ names) =
    (call_line sid name ++ ((if is_known name then or_nothing (output name) else []) ++ (10 ∷ [])))
    ++ outputs sid output names

module _ {S : Type 0} (opener : Opener S) (stdout : Writer S) (fuel : ℕ) {printed : S → Bytes}
    (takes : IsWriter stdout printed) (fine : (x : S) (p : Bytes) → (stdout.write x p).1 ≡ none)
    (output : Bytes → Option Bytes) (law : Answers opener stdout printed fuel output) where
  -- A call that ends from `x` on, and has printed `out`.
  abbrev pub Prints : Bytes → S → Go (Unit {0}) × S → Type 0
  Prints out x g = (x' : S) × (g ≡ (ok tt, x')) × (printed x' ≡ printed x ++ out)
