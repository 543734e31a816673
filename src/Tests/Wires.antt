-- ===== src/Tests/Wires.antt =====
-- Wires with concrete sessions.
use go_wirenet.Base.{ℕ, ◌≡◌, refl, false, true, some, none, [], ◌∷◌, text, Bool}
use go_wirenet.Base.Assoc.{lookup, Assoc}
use go_wirenet.Go.{eof, Error, other}
use go_wirenet.Wire.State.{Peer, Wire, server_side}
use go_wirenet.Wire.Registry.{set_conn_flag}
use go_wirenet.Wire.Close.{close_wire, already_closed}
use go_wirenet.Wire.Closing.{reported, close_wire-all}

abbrev pub a_wire : Bool → Bool → ℕ → Assoc Peer → Wire (Unit {0})
a_wire hub up retries sessions = record {
  addr = 1 ∷ [];
  read_timeout = 0;
  write_timeout = 0;
  sess_close_timeout = 0;
  role = server_side;
  open_sess_hook = none;
  close_sess_hook = none;
  on_connect = none;
  error_handler = none;
  tls_config = none;
  transport_conf = record {
    accept_backlog = 0;
    max_stream_window_size = 0;
    log_output = none;
    enable_keep_alive = true;
    keep_alive_interval = 0;
    connection_write_timeout = 0;
  };
  hub_mode = hub;
  closed = false;
  conn = up;
  conn_counter = 0;
  retry_wait_min = 0;
  retry_wait_max = 0;
  retry_max = retries;
  retry_policy = none;
  sessions = sessions;
  stream_index = [];
  token = [];
  verify_token = none;
  identification = [];
  handlers = [];
}

abbrev pub peer : ℕ → Peer
peer n = record { id = n ∷ []; identification = []; stream_names = text "cam" ∷ [] }

abbrev pub empty_hub : Wire (Unit {0})
empty_hub = a_wire true true 0 []

abbrev serving : Wire (Unit {0})
serving = a_wire false true 0 ((1 ∷ [], peer 1) ∷ [])

abbrev refused_error : Error
refused_error = other (text "connection refused")

close_wire-all_example :
    let (e, w') = close_wire (λ _. some refused_error) (some eof) serving in
    (e ≡ reported (refused_error ∷ eof ∷ []))
    × (w'.sessions ≡ [])
    × (w'.closed ≡ true)
    × (close_wire (λ _. some refused_error) (some eof) w' ≡ (some already_closed, w'))
    × (close_wire (λ _. some refused_error) (some eof) (set_conn_flag false w')
        ≡ (none, set_conn_flag false w'))
unfolding lookup
close_wire-all_example =
    close_wire-all (λ _. some refused_error) (some eof) serving refl refl (refl, tt) (refl, tt)
      ((λ e. cc), tt)
