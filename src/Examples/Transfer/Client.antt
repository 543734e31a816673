-- ===== src/Examples/Transfer/Client.antt =====
-- examples/transfer_files/client/main.go: `readFile`, and the part of `downloadFiles` between OpenStream
-- and CloseWire. os.Stdout is a parameter, to which fmt.Printf writes too.
use go_wirenet.Base.{
  ℕ, zero, suc, Option, some, none, [], ◌∷◌, ◌++◌, Bytes, text, length, patch, replicate,
}
use go_wirenet.Go.{Error, message, Go, ok, err, panic, stuck}
use go_wirenet.Io.{Writer}
use go_wirenet.Stream.Conn.{Conn}
use go_wirenet.Stream.Defs.{Stream}
use go_wirenet.Stream.Transfer.{Moved, write_to}
use go_wirenet.Stream.ReaderWriter.{StreamReader, new_reader, reader_read}
use go_wirenet.Examples.Transfer.Server.{Ran, and_then}

module _ {S : Type 0} (c : Conn S) where
  -- A Read into `fn`, and what the loop does next: an error ends it.
  abbrev pub after_name :
      (Stream → StreamReader → Bytes → S → Go Bytes × Stream × S)
      → Stream
      → Bytes
      → Go (Bytes × Option Error) × StreamReader × Bytes × S
      → Go Bytes × Stream × S
  after_name loop s fn (ok (got, none), r, hdr, x) =
      loop (record s { hdr = hdr }) r (patch 0 got fn) x
  after_name loop s fn (ok (got, some e), r, hdr, x) =
      (ok (patch 0 got fn), record s { hdr = hdr }, x)
  after_name loop s fn (err e, r, hdr, x) = (err e, record s { hdr = hdr }, x)
  after_name loop s fn (panic, r, hdr, x) = (panic, record s { hdr = hdr }, x)
  after_name loop s fn (stuck, r, hdr, x) = (stuck, record s { hdr = hdr }, x)

  -- `for { _, err := reader.Read(fn); if err != nil { break } }`: what `fn` is then.
  unfoldable pub read_name : ℕ → Stream → StreamReader → Bytes → S → Go Bytes × Stream × S
  read_name zero s r fn x = (stuck, s, x)
  read_name (suc fuel) s r fn x =
      after_name (λ s' r' fn' x'. read_name fuel s' r' fn' x') s fn
        (reader_read c fuel s (length fn) r x)

  module _ (stdout : Writer S) where
    abbrev pub transferred : Bytes → Option Error → Bytes
    transferred fn none = text "[INFO] transfer to " ++ (fn ++ (text " OK" ++ 10 ∷ []))
    transferred fn (some e) = text "[ERROR] transfer error " ++ (message e ++ 10 ∷ [])

    abbrev pub print_result : Bytes → Moved S → Ran S
    print_result fn (ok (n, e), s, x) = (ok tt, s, (stdout.write x (transferred fn e)).2)
    print_result fn (err e, s, x) = (err e, s, x)
    print_result fn (panic, s, x) = (panic, s, x)
    print_result fn (stuck, s, x) = (stuck, s, x)

    -- With the name that was read. Closing the reader, which is not used again, changes nothing else.
    abbrev pub after_read_name : ℕ → Go Bytes × Stream × S → Ran S
    after_read_name fuel (ok fn, s, x) = print_result fn (write_to c stdout fuel s x)
    after_read_name fuel (err e, s, x) = (err e, s, x)
    after_read_name fuel (panic, s, x) = (panic, s, x)
    after_read_name fuel (stuck, s, x) = (stuck, s, x)

    unfoldable pub read_file : ℕ → Stream → S → Ran S
    unfolding read_name
    read_file fuel s x = after_read_name fuel (read_name fuel s new_reader (replicate 32 0) x)

    -- The two calls of `readFile` in `downloadFiles`.
    unfoldable pub read_files : ℕ → Stream → S → Ran S
    unfolding read_file
    read_files fuel s x = and_then (read_file fuel) (read_file fuel s x)
