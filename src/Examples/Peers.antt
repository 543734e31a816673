-- ===== src/Examples/Peers.antt =====
-- What the example programs expect of each other (examples/): addresses, sides and stream names.
use go_wirenet.Base.{◌≡◌, refl, Bytes, text, same_bytes}
use go_wirenet.Base.Assoc.{lookup, insert, remove}
use go_wirenet.Go.{Go, ok}
use go_wirenet.Wire.State.{
  Wire, Callback, client_side, server_side, mount, join, hub, new_wire, apply_options, default_wire,
}
use go_wirenet.Wire.Options.{
  option_of, with_session_open_hook, with_session_close_hook, with_tls, with_identification,
  with_token_validator, with_retry_wait, with_retry_max, with_session_close_timeout,
}
use go_wirenet.Wire.Registry.{find_handler, stream}
use go_wirenet.Examples.Programs.{
  stats_server, stats_client, the_hub, node_a, node_b, keyboard_server, keyboard_client,
  auth_server, aws_svc, digitalocean_svc, macbook_svc, tls_server, tls_client, exchange_server,
  binance_dc, google_dc, okcoin_dc, shell_server, host_a, host_b, bytes_server, bytes_client,
  reconnect_server, reconnect_client,
}

module _ {H : Type 0} where
  -- A server is set up at an address, and a client that dials it.
  abbrev pub Meets : Bytes → Go (Wire H) → Go (Wire H) → Type 0
  Meets addr (ok v) (ok w) =
      (v.addr ≡ addr) × (w.addr ≡ addr) × (v.role ≡ server_side) × (w.role ≡ client_side)
  Meets addr _ _ = ⊥

  -- A wire whose handler of a name is `h`.
  abbrev pub Handles : Bytes → H → Go (Wire H) → Type 0
  Handles name h (ok w) = find_handler name w ≡ ok h
  Handles name h _ = ⊥

  -- Each pair of example programs that talk to each other agrees, whatever the handlers, hooks, and
  -- identifications are: the server listens where the client dials, and each stream name that one of
  -- them opens is known at the other, with the handler that was registered for it. (A hub forwards the names of both its nodes.)
  pub programs-Meets :
      (f g f' g' : Callback) (id token : Bytes) (h h1 h2 h3 h4 : H)
      → (Meets (text ":7989") (stats_server h) (stats_client f))
        × (Handles (text "stats") h (stats_server h))
        × (Meets (text ":8765") (the_hub f g) (node_a f g h))
        × (Meets (text ":8765") (the_hub f g) (node_b h1))
        × (Handles (text "nodeA:hello") h (node_a f g h))
        × (Handles (text "nodeB:hello") h1 (node_b h1))
        × (Meets (text ":8976") keyboard_server (keyboard_client id token h))
        × (Handles (text "shell") h (keyboard_client id token h))
        × (Meets (text ":8989") auth_server (aws_svc h))
        × (Meets (text ":8989") auth_server (digitalocean_svc h))
        × (Meets (text ":8989") auth_server (macbook_svc h))
        × (Meets (text ":9076") (tls_server g' f h) (tls_client f' g))
        × (Handles (text "info") h (tls_server g' f h))
        × (Meets (text ":9888") (exchange_server f) (binance_dc h))
        × (Handles (text "binance:quotes") h (binance_dc h))
        × (Meets (text ":9888") (exchange_server f) (google_dc h))
        × (Handles (text "google:quotes") h (google_dc h))
        × (Meets (text ":9888") (exchange_server f) (okcoin_dc h))
        × (Handles (text "okcoin:quotes") h (okcoin_dc h))
        × (Meets (text ":9099") (shell_server f g h) (host_a h1 h2))
        × (Meets (text ":9099") (shell_server f g h) (host_b h3 h4))
        × (Handles (text "amount") h (shell_server f g h))
        × (Handles (text "ping") h1 (host_a h1 h2))
        × (Handles (text "hostA:envPath") h2 (host_a h1 h2))
        × (Handles (text "ifconfig") h3 (host_b h3 h4))
        × (Handles (text "hostB:envPath") h4 (host_b h3 h4))
        × (Meets (text ":8765") (bytes_server h) (bytes_client f))
        × (Handles (text "bytes") h (bytes_server h))
        × (Meets (text ":9876") (reconnect_server f g h) (reconnect_client f' g'))
        × (Handles (text "sayHello") h (reconnect_server f g h))
  unfolding mount join hub new_wire apply_options default_wire stream find_handler lookup insert
      remove same_bytes option_of with_session_open_hook with_session_close_hook with_tls
      with_identification with_token_validator with_retry_wait with_retry_max
      with_session_close_timeout stats_server stats_client the_hub node_a node_b keyboard_server
      keyboard_client auth_server aws_svc digitalocean_svc macbook_svc tls_server tls_client
      exchange_server binance_dc google_dc okcoin_dc shell_server host_a host_b bytes_server
      bytes_client reconnect_server reconnect_client
  programs-Meets f g f' g' id token h h1 h2 h3 h4 = (
    (refl, refl, refl, refl),
    refl,
    (refl, refl, refl, refl),
    (refl, refl, refl, refl),
    refl,
    refl,
    (refl, refl, refl, refl),
    refl,
    (refl, refl, refl, refl),
    (refl, refl, refl, refl),
    (refl, refl, refl, refl),
    (refl, refl, refl, refl),
    refl,
    (refl, refl, refl, refl),
    refl,
    (refl, refl, refl, refl),
    refl,
    (refl, refl, refl, refl),
    refl,
    (refl, refl, refl, refl),
    (refl, refl, refl, refl),
    refl,
    refl,
    refl,
    refl,
    refl,
    (refl, refl, refl, refl),
    refl,
    (refl, refl, refl, refl),
    refl,
  )
