-- ===== src/Tests/Remotes.antt =====
-- The programs that open streams of a session, and the keyboard's exec, on concrete connections.
use go_wirenet.Base.{
  Bool, false, true, ◌≡◌, refl, ap, ◌∙◌, Option, some, none, List, [], ◌∷◌, ◌++◌, arith, Bytes,
  text, replicate, same_bytes,
}
use go_wirenet.Go.{session_closed, Go, ok, err}
use go_wirenet.Io.Chunked.{Wires, writer, reader-Delivers, writer-IsWriter}
use go_wirenet.Stream.Conn.{Conn}
use go_wirenet.Stream.Defs.{Stream, new_stream, reset_buffers, write_hdr, write_word, write_eof}
use go_wirenet.Stream.Transfer.{read_from, read_from_loop, send_chunk, end_of_source}
use go_wirenet.Stream.Chunks.{chunked}
use go_wirenet.Examples.Keyboard.Shell.{shell, exec}
use go_wirenet.Examples.Keyboard.Exec.{asked, exec-shell}
use go_wirenet.Examples.Remote.Opening.{Opener}
use go_wirenet.Examples.Remote.Commands
use go_wirenet.Tests.Transfers.{here, stats, stats-IsReady, nothing}

-- The answer of the shell has arrived, and one byte behind it.
abbrev answered : Wires
answered = record { inbox = (shell here 2000 stats nothing).2.0.outbox ++ (9 ∷ []); outbox = [] }

untouched :
    (b : Bytes) → (asked here 7000 (text "ls") stats (record { inbox = b; outbox = [] })).inbox ≡ b
unfolding read_from read_from_loop new_stream write_hdr write_eof write_word reset_buffers
    end_of_source send_chunk
untouched b = refl

exec-shell_example :
    ((exec here writer 7000 (text "ls") stats answered nothing).0 ≡ ok none)
    × ((exec here writer 7000 (text "ls") stats answered nothing).2.outbox
        ≡ [] ++ replicate 1000 120)
exec-shell_example =
    exec-shell here writer (reader-Delivers 40 (omega arith)) writer-IsWriter (λ x p. refl)
      writer-IsWriter (λ x p. refl) here writer-IsWriter (λ x p. refl) (text "ls") (9 ∷ []) 7000
      2000 stats stats answered nothing nothing (omega arith) (omega arith) (omega arith)
      stats-IsReady stats-IsReady (λ out e. untouched answered.inbox ∙ ap (λ b. b ++ (9 ∷ [])) e)

-- A session whose peer refuses the stream "ping", and says "ok" on every other one.
abbrev says : Bool → Option Bytes
says true = none
says false = some (text "ok")

abbrev opened : Bool → Wires → Go (Stream × Conn Wires) × Wires
opened true x = (err session_closed, x)
opened false x = (ok (stats, here), record x { inbox = chunked (text "ok" ∷ []) })

abbrev opener : Opener Wires
opener = record {
  open_stream = λ name x. opened (same_bytes (text "ping") name) x;
  close = λ s x. x;
  close_session = λ x. (none, x);
}

abbrev feed : Bytes
feed = 10 ∷ []

-- Of four names one is refused and one is not known.
abbrev names : List Bytes
names = text "ifconfig" ∷ text "ping" ∷ text "other" ∷ text "hostA:envPath" ∷ []

abbrev line : Bytes → Bytes
line name = text "CALL REMOTE COMMAND " ++ name ++ text " FROM 7" ++ feed
