-- ===== src/Tests/Transfers.antt =====
-- Files from a server to its client, on concrete disks and connections.
use go_wirenet.Base.{
  ℕ, false, ◌+◌, ◌≡◌, refl, ap, some, List, [], ◌∷◌, ◌++◌, arith, Bytes, text, length, length-take,
  length-replicate, min,
}
use go_wirenet.Go.{Go, ok}
use go_wirenet.Io.{Reader}
use go_wirenet.Io.Chunked.{Wires, end_error, reader, writer, reader-Delivers, writer-IsWriter}
use go_wirenet.Stream.Conn.{Conn}
use go_wirenet.Stream.Defs.{Stream, buf_size, new_stream}
use go_wirenet.Stream.Delivery.{IsReady}
use go_wirenet.Examples.Transfer.Server.{send_files, files}
use go_wirenet.Examples.Transfer.Client.{read_files}
use go_wirenet.Examples.Transfer.Sending.{Disk}
use go_wirenet.Examples.Transfer.Receiving.{Receives}
use go_wirenet.Examples.Transfer.Delivery.{read_files-send_files}

abbrev pub here : Conn Wires
here = record { reader = reader 40; writer = writer; sess_closed = λ _. false }

abbrev path : Bytes → Bytes
path name = text "files/" ++ name

-- Every file holds its own path.
abbrev open_file : Bytes → Wires → Go (Reader Wires) × Wires
open_file p x = (ok (reader 12), record x { inbox = p })

disk : Disk here (λ x. x.outbox) open_file some
disk = record {
  opened = λ p b x there. (
    reader 12,
    λ y. y.inbox,
    record x { inbox = p },
    refl,
    reader-Delivers 12 (omega arith),
    λ y n e. ap end_error e,
    λ y n. refl,
    λ y q. refl,
    refl,
    (cc),
  );
  missing = λ p x gone. absurd (cc);
}

abbrev pub stats : Stream
stats = new_stream (text "id") (text "stats")

pub stats-IsReady : IsReady buf_size stats
unfolding new_stream
stats-IsReady = record { is_open = refl; header = refl; room = length-replicate {A = ℕ} buf_size 0 }

abbrev pub nothing : Wires
nothing = record { inbox = []; outbox = [] }

-- What the server has sent has arrived, and one byte behind it.
abbrev come : Wires
come = record {
  inbox = (send_files here path open_file 20 files stats nothing).2.outbox ++ (9 ∷ []);
  outbox = [];
}

abbrev contents : List (Bytes × Bytes)
contents = (text "one", text "files/one") ∷ (text "two", text "files/two") ∷ []

read_files-send_files_example :
    ((send_files here path open_file 20 files stats nothing).0 ≡ ok tt)
    × Receives here
        (reader-Delivers 40 (omega arith))
        (λ x n small there. omega (arith, length-take (min 40 n) x.inbox))
        (λ x n. refl)
        writer
        writer-IsWriter
        (λ x p. refl)
        (λ x p. refl)
        come
        contents
        (9 ∷ [])
        (read_files here writer (length come.inbox + buf_size + 3) stats come)
unfolding files
read_files-send_files_example =
    read_files-send_files here path open_file writer-IsWriter (λ x p. refl) some disk here
      (reader-Delivers 40 (omega arith))
      (λ x n small there. omega (arith, length-take (min 40 n) x.inbox)) (λ x n. refl) writer
      writer-IsWriter (λ x p. refl) (λ x p. refl) (text "one") (text "two") (text "files/one")
      (text "files/two") (text "files/one") (text "files/two") (9 ∷ []) 20
      (length come.inbox + buf_size + 3) stats stats nothing come
      (omega arith, omega arith, (omega arith, omega arith, tt)) refl refl (omega arith)
      (omega arith) (omega arith) stats-IsReady stats-IsReady (λ out e. ap (λ b. b ++ (9 ∷ [])) e)
