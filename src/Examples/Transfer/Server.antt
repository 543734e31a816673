-- ===== src/Examples/Transfer/Server.antt =====
-- examples/transfer_files/server/main.go: `files`, `transfer` and the handler of "stats". The joining of
-- paths with os.Getwd, os.Open and the opened file are parameters; Printf and Println are left out.
use go_wirenet.Base.{ℕ, [], ◌∷◌, Bytes, text}
use go_wirenet.Go.{Go, ok, err, panic, stuck}
use go_wirenet.Io.{Reader}
use go_wirenet.Base.Assoc.{Assoc}
use go_wirenet.Stream.Conn.{Conn}
use go_wirenet.Stream.Defs.{Stream}
use go_wirenet.Stream.Transfer.{Moved, read_from}
use go_wirenet.Stream.Parts.{write_part}

unfoldable pub files : Assoc Bytes
files = (text "one", text "files/one") ∷ (text "two", text "files/two") ∷ []

-- A call on a stream, whose results are dropped.
abbrev pub Ran : Type 0 → Type 0
Ran S = Go (Unit {0}) × Stream × S

abbrev pub drop_results : {S : Type 0} → Moved S → Ran S
drop_results (ok _, s, x) = (ok tt, s, x)
drop_results (err e, s, x) = (err e, s, x)
drop_results (panic, s, x) = (panic, s, x)
drop_results (stuck, s, x) = (stuck, s, x)

-- A call after another.
abbrev pub and_then : {S : Type 0} → (Stream → S → Ran S) → Ran S → Ran S
and_then f (ok _, s, x) = f s x
and_then f (err e, s, x) = (err e, s, x)
and_then f (panic, s, x) = (panic, s, x)
and_then f (stuck, s, x) = (stuck, s, x)

module _ {S : Type 0} (c : Conn S) (path : Bytes → Bytes)
    (open_file : Bytes → S → Go (Reader S) × S) (fuel : ℕ) where
  -- With the opened file; an error is printed, and nothing is sent.
  abbrev pub after_open : Bytes → Stream → Go (Reader S) × S → Ran S
  after_open filename s (ok file, x) =
      drop_results (read_from c file fuel s (write_part c s (filename ∷ []) x))
  after_open filename s (err e, x) = (ok tt, s, x)
  after_open filename s (panic, x) = (panic, s, x)
  after_open filename s (stuck, x) = (stuck, s, x)

  -- The second parameter of the source, the path, is overwritten before it is read.
  unfoldable pub transfer : Bytes → Bytes → Stream → S → Ran S
  transfer filename fp s x = after_open filename s (open_file (path filename) x)

  -- The handler. The order in which Go ranges over a map is any: that of the list.
  unfoldable pub send_files : Assoc Bytes → Stream → S → Ran S
  unfolding transfer
  send_files [] s x = (ok tt, s, x)
  send_files ((filename, fpath) ∷ rest) s x =
      and_then (send_files rest) (transfer filename fpath s x)
