-- ===== src/Tests/Programs.antt =====
-- The example programs on concrete connections.
use go_wirenet.Base.{◌+◌, ◌≡◌, refl, ap, List, [], ◌∷◌, ◌++◌, arith, Bytes, text, length}
use go_wirenet.Io.Chunked.{Wires, reader, writer, reader-Delivers, reader-IsReader, writer-IsWriter}
use go_wirenet.Stream.Defs.{buf_size}
use go_wirenet.Stream.Transfer.{read_from, write_to}
use go_wirenet.Stream.ReaderWriter.{new_reader, reader_read}
use go_wirenet.Stream.Parts.{write_part}
use go_wirenet.Stream.Messages.{Takes, write_to-write_part}
use go_wirenet.Stream.Delivery.{IsReady}
use go_wirenet.Stream.Steady.{transfers-IsReady}
use go_wirenet.Examples.Hub.Nodes.{say_hello, hello_parts, print_rounds}
use go_wirenet.Examples.Hub.Delivery.{Prints, joined_parts, print_rounds-say_hello}
use go_wirenet.Tests.Transfers.{here, stats, stats-IsReady, nothing}

abbrev parts : List Bytes
parts = text "one" ∷ text "two" ∷ []

-- What was written has arrived, and one byte behind it.
abbrev behind : Bytes → Wires
behind b = record { inbox = b ++ (9 ∷ []); outbox = [] }

abbrev carried : Wires
carried = behind (write_part here stats parts nothing).outbox

write_to-write_part_example :
    Takes here writer
      (reader-Delivers 40 (omega arith))
      writer-IsWriter
      (λ x p. refl)
      (λ x n. refl)
      (λ x p. refl)
      (text "onetwo")
      (9 ∷ [])
      carried
      (write_to here writer (length carried.inbox + buf_size + 3) stats carried)
write_to-write_part_example =
    write_to-write_part here writer (reader-Delivers 40 (omega arith)) writer-IsWriter (λ x p. refl)
      (λ x n. refl) (λ x p. refl) here writer-IsWriter (λ x p. refl) parts (9 ∷ [])
      (length carried.inbox + buf_size + 3) stats stats nothing carried (omega arith)
      stats-IsReady.is_open stats-IsReady (omega arith) (λ out e. ap (λ b. b ++ (9 ∷ [])) e)

transfers-IsReady_example :
    IsReady buf_size (read_from here (reader 12) 5 stats carried).1
    × IsReady buf_size (write_to here writer 5 stats carried).1
    × (length (reader_read here 5 stats 3 new_reader carried).2 ≡ 4)
transfers-IsReady_example =
    transfers-IsReady here (reader 12) writer (reader-IsReader 40) (reader-IsReader 12) 5 3 stats
      new_reader carried stats-IsReady

abbrev greeted : Wires
greeted = behind (say_hello here stats nothing).outbox

print_rounds-say_hello_example :
    Prints here writer
      (reader-Delivers 40 (omega arith))
      writer-IsWriter
      (λ x p. refl)
      (λ x n. refl)
      (λ x p. refl)
      (joined_parts hello_parts)
      (9 ∷ [])
      greeted
      (print_rounds here writer (length greeted.inbox + buf_size + 3) 3 stats greeted)
print_rounds-say_hello_example =
    print_rounds-say_hello here writer (reader-Delivers 40 (omega arith)) writer-IsWriter
      (λ x p. refl) (λ x n. refl) (λ x p. refl) here writer-IsWriter (λ x p. refl) (9 ∷ [])
      (length greeted.inbox + buf_size + 3) stats stats nothing greeted stats-IsReady.is_open
      stats-IsReady (omega arith) (λ out e. ap (λ b. b ++ (9 ∷ [])) e)
