-- ===== src/Examples/Reconnect.antt =====
-- examples/reconnect: `read` of client/main.go once its stream is open, and the handler of "sayHello" of
-- server/main.go. encoding/binary is written out; the log and the pause are left out; os.Stdout is a parameter.
use go_wirenet.Base.{
  ℕ, zero, suc, ◌-◌, ◌%◌, ◌^◌, Bool, Option, none, some, [], ◌∷◌, ◌++◌, Bytes, text, length, patch,
  replicate, put_uint32, uint32, leb, ◌==◌, if◌then◌else◌,
}
use go_wirenet.Go.{Error, unexpected_eof, is_eof, Go, ok, err, panic, stuck}
use go_wirenet.Io.{Writer}
use go_wirenet.Stream.Conn.{Conn}
use go_wirenet.Stream.Defs.{Stream}
use go_wirenet.Stream.Parts.{write_part}
use go_wirenet.Stream.ReaderWriter.{StreamReader, new_reader, reader_read, writer_write}
use go_wirenet.Examples.Hub.Nodes.{decimal}

module _ {S : Type 0} (c : Conn S) where
  -- The loop of Reads into 32 bytes: each that brings some bytes prints all of the buffer and counts.
  abbrev pub after_count :
      (Stream → StreamReader → Bytes → S → Go ℕ × S)
      → Writer S
      → Stream
      → Bytes
      → Go (Bytes × Option Error) × StreamReader × Bytes × S
      → ℕ
      → Go ℕ × S
  after_count loop stdout s buf (ok (got, some e), r, hdr, x) n = (ok n, x)
  after_count loop stdout s buf (ok (got, none), r, hdr, x) n =
      let buf' = patch 0 got buf in
      if length got == 0
      then (ok n, x)
      else loop (record s { hdr = hdr }) r buf' (stdout.write x buf').2
  after_count loop stdout s buf (err e, r, hdr, x) n = (err e, x)
  after_count loop stdout s buf (panic, r, hdr, x) n = (panic, x)
  after_count loop stdout s buf (stuck, r, hdr, x) n = (stuck, x)

  unfoldable pub count_reads : Writer S → ℕ → ℕ → Stream → StreamReader → Bytes → S → Go ℕ × S
  count_reads stdout zero n s r buf x = (stuck, x)
  count_reads stdout (suc fuel) n s r buf x =
      after_count (λ s' r' buf' x'. count_reads stdout fuel (suc n) s' r' buf' x') stdout s buf
        (reader_read c fuel s (length buf) r x) n

  -- `startIndex` at the end of `read`, and whether it goes on to CloseWire.
  abbrev pub and_stop : Go ℕ × S → Go (ℕ × Bool) × S
  and_stop (ok n, x) = (ok (n, leb 20 n), x)
  and_stop (err e, x) = (err e, x)
  and_stop (panic, x) = (panic, x)
  and_stop (stuck, x) = (stuck, x)

  unfoldable pub read_greetings : Writer S → ℕ → ℕ → Stream → S → Go (ℕ × Bool) × S
  unfolding count_reads
  read_greetings stdout fuel start_index s x = and_stop (
      count_reads stdout fuel start_index s new_reader (replicate 32 0)
        (write_part c s (put_uint32 (start_index % 2 ^ 32) ∷ []) x))

  -- `binary.Read` of four bytes: Reads until they are there, or an error.
  abbrev pub after_part :
      (Stream → StreamReader → Bytes → S → Go ℕ × Stream × S)
      → Stream
      → Bytes
      → Go (Bytes × Option Error) × StreamReader × Bytes × S
      → Go ℕ × Stream × S
  after_part loop s got (ok (more, e), r, hdr, x) =
      let all = got ++ more in
      let s' = record s { hdr = hdr } in
      if leb 4 (length all) then (ok (uint32 all), s', x) else elim e [
        | none ↦ loop s' r all x
        | some e' ↦ (
          err (if is_eof e' then (if length all == 0 then e' else unexpected_eof) else e'),
          s',
          x,
        )
      ]
  after_part loop s got (err e, r, hdr, x) = (err e, s, x)
  after_part loop s got (panic, r, hdr, x) = (panic, s, x)
  after_part loop s got (stuck, r, hdr, x) = (stuck, s, x)

  unfoldable pub read_index : ℕ → Stream → StreamReader → Bytes → S → Go ℕ × Stream × S
  read_index zero s r got x = (stuck, s, x)
  read_index (suc fuel) s r got x =
      after_part (λ s' r' got' x'. read_index fuel s' r' got' x') s got
        (reader_read c fuel s (4 - length got) r x)

  -- The Writes, with `left` of them left and `i` for the number: one that fails ends the handler.
  unfoldable pub say_hello_from : ℕ → ℕ → Stream → S → S
  say_hello_from zero i s x = x
  say_hello_from (suc left) i s x =
      let ((n, e), x') = writer_write c s (decimal 2 i ++ text ". Hello from server! ") x in
      let rest = say_hello_from left (suc i) s x' in
      elim e [ some _ ↦ x' | none ↦ if n == 0 then x' else rest ]

  -- `for i := startIndex; ; i++ { if i > 20 { break }; … }`; there is no Close of the writer.
  abbrev pub from_index : Go ℕ × Stream × S → Go (Unit {0}) × S
  from_index (ok i, s, x) = (ok tt, say_hello_from (21 - i) i s x)
  from_index (err e, s, x) = (ok tt, x)
  from_index (panic, s, x) = (panic, x)
  from_index (stuck, s, x) = (stuck, x)

  unfoldable pub say_greetings : ℕ → Stream → S → Go (Unit {0}) × S
  unfolding read_index say_hello_from
  say_greetings fuel s x = from_index (read_index fuel s new_reader [] x)
