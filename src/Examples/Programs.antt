-- ===== src/Examples/Programs.antt =====
-- The main functions of the example programs (examples/): the wire that each sets up, with its options and
-- its handlers, and its Connect. Hooks, TLS configurations and handlers are parameters; signals, goroutines
-- and printing are left out.
use go_wirenet.Base.{◌*◌, Option, some, none, List, [], ◌∷◌, Bytes, text}
use go_wirenet.Base.Assoc.{Assoc}
use go_wirenet.Go.{Error, Go, ok, err, panic, stuck}
use go_wirenet.Wire.State.{Wire, Callback, second, mount, join, hub}
use go_wirenet.Wire.Options.{
  identification, token_validator, retry_wait, retry_max, session_open_hook, session_close_hook,
  session_close_timeout, tls,
}
use go_wirenet.Wire.Fresh.{options}
use go_wirenet.Wire.Registry.{stream}
use go_wirenet.Wire.Connect.{connect}
use go_wirenet.Wire.Backoff.{Floats}
use go_wirenet.Wire.Client.{Round}
use go_wirenet.Wire.Server.{Arrival}
use go_wirenet.Examples.Auth.{auth_validator}

module _ {H : Type 0} where
  abbrev pub registered : Assoc H → Wire H → Wire H
  registered [] w = w
  registered ((name, h) ∷ hs) w = registered hs (stream name h w)

  -- The constructor's result, an error of which ends the program (`panic`, also where the source calls
  -- os.Exit), and the calls of Stream.
  abbrev pub set_up : Go (Wire H) → Assoc H → Go (Wire H)
  set_up (ok w) hs = ok (registered hs w)
  set_up (err e) hs = panic
  set_up panic hs = panic
  set_up stuck hs = stuck

  -- An error of Connect ends the program as well.
  abbrev pub connected : Go (Option Error) × Wire H → Go (Unit {0}) × Wire H
  connected (ok none, w) = (ok tt, w)
  connected (ok (some e), w) = (panic, w)
  connected (err e, w) = (panic, w)
  connected (panic, w) = (panic, w)
  connected (stuck, w) = (stuck, w)

  -- A program whose main function ends with Connect.
  unfoldable pub run_connect :
      Floats → List Round → Option Error → List Arrival → Wire H → Go (Unit {0}) × Wire H
  unfolding connect
  run_connect fl dials listen arrivals w = connected (connect fl dials listen arrivals w)

  -- examples/transfer_files
  unfoldable pub stats_server : H → Go (Wire H)
  unfolding mount stream
  stats_server h = set_up (mount (text ":7989") []) ((text "stats", h) ∷ [])

  unfoldable pub stats_client : Callback → Go (Wire H)
  unfolding join stream
  stats_client opened =
      set_up (join (text ":7989") (options (some (session_open_hook opened) ∷ []))) []

  -- examples/hub
  unfoldable pub the_hub : Callback → Callback → Go (Wire H)
  unfolding hub stream
  the_hub opened closed =
      set_up
        (hub (text ":8765")
          (options (some (session_open_hook opened) ∷ some (session_close_hook closed) ∷ [])))
        []

  unfoldable pub node_a : Callback → Callback → H → Go (Wire H)
  unfolding join stream
  node_a opened closed h =
      set_up
        (join (text ":8765")
          (options (some (session_open_hook opened) ∷ some (session_close_hook closed) ∷ [])))
        ((text "nodeA:hello", h) ∷ [])

  unfoldable pub node_b : H → Go (Wire H)
  unfolding join stream
  node_b h = set_up (join (text ":8765") []) ((text "nodeB:hello", h) ∷ [])

  -- examples/keyboard; the command line gives the client its identification and its token
  unfoldable pub keyboard_server : Go (Wire H)
  unfolding mount stream
  keyboard_server = set_up (mount (text ":8976") (options (none ∷ []))) []

  unfoldable pub keyboard_client : Bytes → Bytes → H → Go (Wire H)
  unfolding join stream
  keyboard_client id token h =
      set_up (join (text ":8976") (options (some (identification id token) ∷ [])))
        ((text "shell", h) ∷ [])

  -- examples/auth
  unfoldable pub auth_server : Go (Wire H)
  unfolding mount stream
  auth_server =
      set_up (mount (text ":8989") (options (some (token_validator auth_validator) ∷ []))) []

  unfoldable pub aws_svc : H → Go (Wire H)
  unfolding join stream
  aws_svc h =
      set_up
        (join (text ":8989") (options (some (identification (text "aws.svc") (text "token")) ∷ [])))
        ((text "aws:read", h) ∷ [])

  unfoldable pub digitalocean_svc : H → Go (Wire H)
  unfolding join stream
  digitalocean_svc h =
      set_up
        (join (text ":8989")
          (options (some (identification (text "digitalocean.svc") (text "badtoken")) ∷ [])))
        ((text "digitalocean:read", h) ∷ [])

  unfoldable pub macbook_svc : H → Go (Wire H)
  unfolding join stream
  macbook_svc h =
      set_up
        (join (text ":8989")
          (options (some (identification (text "macbook.svc") (text "token")) ∷ [])))
        ((text "macbook:read", h) ∷ [])

  -- examples/tls
  unfoldable pub tls_server : Callback → Callback → H → Go (Wire H)
  unfolding mount stream
  tls_server conf opened h =
      set_up
        (mount (text ":9076") (options (some (tls conf) ∷ some (session_open_hook opened) ∷ [])))
        ((text "info", h) ∷ [])

  unfoldable pub tls_client : Callback → Callback → Go (Wire H)
  unfolding join stream
  tls_client conf closed =
      set_up
        (join (text ":9076") (
          options (
            some (tls conf)
            ∷ some (identification (text "client") [])
            ∷ some (session_close_hook closed)
            ∷ [])))
        []

  -- examples/exchange
  unfoldable pub exchange_server : Callback → Go (Wire H)
  unfolding mount stream
  exchange_server opened =
      set_up
        (mount (text ":9888") (
          options
            (some (session_close_timeout (5 * second)) ∷ some (session_open_hook opened) ∷ [])))
        []

  unfoldable pub binance_dc : H → Go (Wire H)
  unfolding join stream
  binance_dc h = set_up (join (text ":9888") []) ((text "binance:quotes", h) ∷ [])

  unfoldable pub google_dc : H → Go (Wire H)
  unfolding join stream
  google_dc h = set_up (join (text ":9888") []) ((text "google:quotes", h) ∷ [])

  unfoldable pub okcoin_dc : H → Go (Wire H)
  unfolding join stream
  okcoin_dc h = set_up (join (text ":9888") []) ((text "okcoin:quotes", h) ∷ [])

  -- examples/shell
  unfoldable pub shell_server : Callback → Callback → H → Go (Wire H)
  unfolding mount stream
  shell_server opened closed h =
      set_up
        (mount (text ":9099")
          (options (some (session_open_hook opened) ∷ some (session_close_hook closed) ∷ [])))
        ((text "amount", h) ∷ [])

  unfoldable pub host_a : H → H → Go (Wire H)
  unfolding join stream
  host_a ping path =
      set_up (join (text ":9099") []) ((text "ping", ping) ∷ (text "hostA:envPath", path) ∷ [])

  unfoldable pub host_b : H → H → Go (Wire H)
  unfolding join stream
  host_b ifconfig path =
      set_up (join (text ":9099") [])
        ((text "ifconfig", ifconfig) ∷ (text "hostB:envPath", path) ∷ [])

  -- examples/bytes
  unfoldable pub bytes_server : H → Go (Wire H)
  unfolding mount stream
  bytes_server h = set_up (mount (text ":8765") []) ((text "bytes", h) ∷ [])

  unfoldable pub bytes_client : Callback → Go (Wire H)
  unfolding join stream
  bytes_client opened =
      set_up (join (text ":8765") (options (some (session_open_hook opened) ∷ []))) []

  -- examples/reconnect
  unfoldable pub reconnect_server : Callback → Callback → H → Go (Wire H)
  unfolding mount stream
  reconnect_server opened closed h =
      set_up
        (mount (text ":9876")
          (options (some (session_open_hook opened) ∷ some (session_close_hook closed) ∷ [])))
        ((text "sayHello", h) ∷ [])

  unfoldable pub reconnect_client : Callback → Callback → Go (Wire H)
  unfolding join stream
  reconnect_client opened closed =
      set_up
        (join (text ":9876") (
          options (
            some (session_close_timeout second)
            ∷ some (retry_max 1000)
            ∷ some (retry_wait second (10 * second))
            ∷ some (session_open_hook opened)
            ∷ some (session_close_hook closed)
            ∷ [])))
        []
