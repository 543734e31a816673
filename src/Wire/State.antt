-- ===== src/Wire/State.antt =====
-- The fields of `wire`, `newWire` with its options, and the constructors (wirenet.go). Durations are numbers of nanoseconds.
use go_wirenet.Base.{
  ℕ, ◌*◌, ◌^◌, Bool, true, false, Option, none, some, List, [], ◌∷◌, ◌++◌, Bytes, text, length,
  ◌==◌, if◌then◌else◌,
}
use go_wirenet.Base.Assoc.{Assoc}
use go_wirenet.Base.Int.{ℤ}
use go_wirenet.Go.{Error, addr_empty, Go, ok, err}

pub data Role : Type 0 where
  client_side server_side : Role

unfoldable pub is_client_side : Role → Bool
is_client_side client_side = true
is_client_side server_side = false

unfoldable pub is_server_side : Role → Bool
is_server_side client_side = false
is_server_side server_side = true

-- `String()`
unfoldable pub role_text : Role → Bytes
role_text client_side = text "client side"
role_text server_side = text "server side"

-- What the wire keeps of a session: the fields that never change.
pub record Peer : Type 0 where
  pub id : Bytes
  pub identification : Bytes
  pub stream_names : List Bytes

abbrev pub second : ℕ
second = 10 ^ 9

-- A function or an object that the caller hands over and that the wire only calls or passes on (hooks,
-- the error handler, the log writer, the TLS configuration): its number.
abbrev pub Callback : Type 0
Callback = ℕ

-- The shortest and the longest wait, and the number of the attempt, to the wait.
abbrev pub RetryPolicy : Type 0
RetryPolicy = ℕ → ℕ → ℕ → ℤ

-- `yamux.Config`; the log goes to standard error where there is no writer.
pub record TransportConf : Type 0 where
  pub accept_backlog : ℕ
  pub max_stream_window_size : ℕ
  pub log_output : Option Callback
  pub enable_keep_alive : Bool
  pub keep_alive_interval : ℕ
  pub connection_write_timeout : ℕ

-- `H` is the type of handlers.
pub record Wire (H : Type 0) : Type 0 where
  pub addr : Bytes
  pub read_timeout : ℕ
  pub write_timeout : ℕ
  pub sess_close_timeout : ℕ
  pub role : Role
  -- none for the functions that do nothing
  pub open_sess_hook : Option Callback
  pub close_sess_hook : Option Callback
  pub on_connect : Option Callback
  pub error_handler : Option Callback
  pub tls_config : Option Callback
  pub transport_conf : TransportConf
  pub hub_mode : Bool
  pub closed : Bool
  pub conn : Bool
  pub conn_counter : ℕ
  pub retry_wait_min : ℕ
  pub retry_wait_max : ℕ
  pub retry_max : ℕ
  pub retry_policy : Option RetryPolicy  -- none for DefaultRetryPolicy
  pub sessions : Assoc Peer
  pub stream_index : Assoc Peer
  pub token : Bytes
  -- `verifyToken`: the validator's answer for a name, an identification and a token; nil at first
  pub verify_token : Option (Bytes → Bytes → Bytes → Option Error)
  pub identification : Bytes
  pub handlers : Assoc H

abbrev pub WireOption : Type 0 → Type 0
WireOption H = Wire H → Wire H

module _ {H : Type 0} where
  unfoldable pub default_wire : Bytes → Role → Wire H
  default_wire addr role = record {
    addr = addr;
    read_timeout = 10 * second;
    write_timeout = 10 * second;
    sess_close_timeout = 5 * second;
    role = role;
    open_sess_hook = none;
    close_sess_hook = none;
    on_connect = none;
    error_handler = none;
    tls_config = none;
    transport_conf = record {
      accept_backlog = 256;
      max_stream_window_size = 256 * 1024;
      log_output = none;
      enable_keep_alive = true;
      keep_alive_interval = 15 * second;
      connection_write_timeout = 10 * second;
    };
    hub_mode = false;
    closed = false;
    conn = false;
    conn_counter = 0;
    retry_wait_min = 5 * second;
    retry_wait_max = 60 * second;
    retry_max = 100;
    retry_policy = none;
    sessions = [];
    stream_index = [];
    token = [];
    verify_token = none;
    identification = [];
    handlers = [];
  }

  -- `for _, opt := range opts { if opt == nil { continue }; opt(wire) }`
  unfoldable pub apply_options : List (Option (WireOption H)) → Wire H → Wire H
  apply_options [] w = w
  apply_options (none ∷ opts) w = apply_options opts w
  apply_options (some opt ∷ opts) w = apply_options opts (opt w)

  unfoldable pub new_wire : Bytes → Role → List (Option (WireOption H)) → Go (Wire H)
  unfolding apply_options default_wire
  new_wire addr role opts =
      if length addr == 0 then err addr_empty else ok (apply_options opts (default_wire addr role))

  unfoldable pub mount : Bytes → List (Option (WireOption H)) → Go (Wire H)
  unfolding new_wire
  mount addr opts = new_wire addr server_side opts

  unfoldable pub hub : Bytes → List (Option (WireOption H)) → Go (Wire H)
  unfolding new_wire
  hub addr opts = new_wire addr server_side (opts ++ some (λ w. record w { hub_mode = true }) ∷ [])

  unfoldable pub join : Bytes → List (Option (WireOption H)) → Go (Wire H)
  unfolding new_wire
  join addr opts = new_wire addr client_side opts
