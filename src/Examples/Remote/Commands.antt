-- ===== src/Examples/Remote/Commands.antt =====
-- examples/shell/server/main.go: `exec`, `ping`, `ifconfig` and `envPath`, which print what the streams of
-- a session say; `aggregate` of examples/exchange/server/main.go; and the end of `main` in
-- examples/tls/client/main.go. os.Stdout is a parameter; the log is left out.
use go_wirenet.Base.{ℕ, ◌||◌, Option, List, [], ◌∷◌, ◌++◌, Bytes, text, same_bytes, if◌then◌else◌}
use go_wirenet.Go.{Error, Go, ok, err, panic, stuck, M, pure, ◌>>◌}
use go_wirenet.Io.{Writer}
use go_wirenet.Stream.Conn.{Conn}
use go_wirenet.Stream.Defs.{Stream}
use go_wirenet.Stream.Transfer.{Moved, write_to}
use go_wirenet.Examples.Remote.Opening.{Opener}

-- `"CALL REMOTE COMMAND %s FROM %s\n"`
abbrev pub call_line : Bytes → Bytes → Bytes
call_line sid name = text "CALL REMOTE COMMAND " ++ (name ++ (text " FROM " ++ (sid ++ (10 ∷ []))))

module _ {S : Type 0} (opener : Opener S) (stdout : Writer S) (fuel : ℕ) where
  -- WriteTo, whose results are dropped, and the deferred Close of the stream.
  abbrev pub and_close : Moved S → Go (Unit {0}) × S
  and_close (ok _, s, x) = (ok tt, opener.close s x)
  and_close (err e, s, x) = (err e, opener.close s x)
  and_close (panic, s, x) = (panic, opener.close s x)
  and_close (stuck, s, x) = (stuck, x)

  -- An error of OpenStream is logged.
  abbrev pub after_open : Go (Stream × Conn S) × S → Go (Unit {0}) × S
  after_open (ok (s, c), x) = and_close (write_to c stdout fuel s x)
  after_open (err e, x) = (ok tt, x)
  after_open (panic, x) = (panic, x)
  after_open (stuck, x) = (stuck, x)

  unfoldable pub ping : M S (Unit {0})
  ping x = after_open (opener.open_stream (text "ping") x)

  unfoldable pub ifconfig : M S (Unit {0})
  ifconfig x = after_open (opener.open_stream (text "ifconfig") x)

  unfoldable pub env_path : Bytes → M S (Unit {0})
  env_path name x = after_open (opener.open_stream name x)

  -- The switch on a stream's name.
  unfoldable pub exec_name : Bytes → M S (Unit {0})
  unfolding ping ifconfig env_path
  exec_name name =
      if same_bytes (text "hostA:envPath") name || same_bytes (text "hostB:envPath") name
      then env_path name
      else if same_bytes (text "ping") name
      then ping
      else if same_bytes (text "ifconfig") name
      then ifconfig
      else pure tt

  -- `fmt.Printf` of a text, whose results are dropped.
  abbrev pub printf : Bytes → M S (Unit {0})
  printf line x = (ok tt, (stdout.write x line).2)

  -- The loop over the session's stream names, with a line before and an empty one behind each, and
  -- its Close, whose error is logged. `sid` is the text of the session's ID.
  unfoldable pub exec : Bytes → List Bytes → M S (Unit {0})
  unfolding exec_name
  exec sid [] x = (ok tt, (opener.close_session x).1)
  exec sid (name ∷ names) x =
      (printf (call_line sid name) >> (exec_name name >> (printf (10 ∷ []) >> exec sid names))) x

module _ {S : Type 0} (opener : Opener S) where
  -- The end of the TLS client's `main`, with the session that its hook has handed on.
  abbrev pub and_print : Writer S → ℕ → Go (Stream × Conn S) × S → Go (Unit {0}) × S
  and_print stdout fuel (ok (s, c), x) =
      let (g, s', x') = write_to c stdout fuel s x in dropped g x'
    where
      dropped : Go (ℕ × Option Error) → S → Go (Unit {0}) × S
      dropped (ok _) x' = (ok tt, x')
      dropped (err e) x' = (err e, x')
      dropped panic x' = (panic, x')
      dropped stuck x' = (stuck, x')
  and_print stdout fuel (err e, x) = (panic, x)
  and_print stdout fuel (panic, x) = (panic, x)
  and_print stdout fuel (stuck, x) = (stuck, x)

  unfoldable pub print_info : Writer S → ℕ → S → Go (Unit {0}) × S
  print_info stdout fuel x = and_print stdout fuel (opener.open_stream (text "info") x)

-- `aggregate` on the names of a session: those that `read` gets a goroutine for.
unfoldable pub aggregate : List Bytes → List Bytes
aggregate [] = []
aggregate (name ∷ names) =
    let rest = aggregate names in
    if same_bytes (text "binance:quotes") name
      || (same_bytes (text "google:quotes") name || same_bytes (text "okcoin:quotes") name)
    then name ∷ rest
    else rest
