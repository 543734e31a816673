-- ===== src/Wire/Options.antt =====
-- The options of a wire (options.go).
use go_wirenet.Base.{ℕ, Bool, true, Option, some, Bytes}
use go_wirenet.Go.{Error}
use go_wirenet.Wire.State.{Callback, RetryPolicy, WireOption}

module _ {H : Type 0} where
  unfoldable pub with_connect_hook : Callback → WireOption H
  with_connect_hook hook w = record w { on_connect = some hook }

  unfoldable pub with_error_handler : Callback → WireOption H
  with_error_handler h w = record w { error_handler = some h }

  unfoldable pub with_session_open_hook : Callback → WireOption H
  with_session_open_hook hook w = record w { open_sess_hook = some hook }

  unfoldable pub with_session_close_hook : Callback → WireOption H
  with_session_close_hook hook w = record w { close_sess_hook = some hook }

  unfoldable pub with_tls : Callback → WireOption H
  with_tls conf w = record w { tls_config = some conf }

  unfoldable pub with_log_writer : Callback → WireOption H
  with_log_writer out w = record w {
    transport_conf = record w.transport_conf { log_output = some out };
  }

  unfoldable pub with_retry_policy : RetryPolicy → WireOption H
  with_retry_policy rp w = record w { retry_policy = some rp }

  unfoldable pub with_identification : Bytes → Bytes → WireOption H
  with_identification id token w = record w { identification = id; token = token }

  unfoldable pub with_token_validator : (Bytes → Bytes → Bytes → Option Error) → WireOption H
  with_token_validator v w = record w { verify_token = some v }

  unfoldable pub with_retry_wait : ℕ → ℕ → WireOption H
  with_retry_wait least most w = record w { retry_wait_max = most; retry_wait_min = least }

  unfoldable pub with_retry_max : ℕ → WireOption H
  with_retry_max n w = record w { retry_max = n }

  unfoldable pub with_keep_alive_interval : ℕ → WireOption H
  with_keep_alive_interval interval w = record w {
    transport_conf = record w.transport_conf {
      keep_alive_interval = interval;
      enable_keep_alive = true;
    };
  }

  unfoldable pub with_keep_alive : Bool → WireOption H
  with_keep_alive flag w = record w {
    transport_conf = record w.transport_conf { enable_keep_alive = flag };
  }

  unfoldable pub with_read_write_timeouts : ℕ → ℕ → WireOption H
  with_read_write_timeouts read write w = record w {
    read_timeout = read;
    write_timeout = write;
    transport_conf = record w.transport_conf { connection_write_timeout = write };
  }

  unfoldable pub with_session_close_timeout : ℕ → WireOption H
  with_session_close_timeout dur w = record w { sess_close_timeout = dur }

-- A call of one of the functions of options.go that return an option.
pub data Setting : Type 0 where
  connect_hook error_handler session_open_hook session_close_hook tls log_writer :
      Callback → Setting
  identification : Bytes → Bytes → Setting
  token_validator : (Bytes → Bytes → Bytes → Option Error) → Setting
  retry_wait : ℕ → ℕ → Setting
  retry_max : ℕ → Setting
  keep_alive_interval : ℕ → Setting
  keep_alive : Bool → Setting
  read_write_timeouts : ℕ → ℕ → Setting
  session_close_timeout : ℕ → Setting
  retry_policy : RetryPolicy → Setting

unfoldable pub option_of : {H : Type 0} → Setting → WireOption H
option_of (connect_hook f) = with_connect_hook f
option_of (error_handler f) = with_error_handler f
option_of (session_open_hook f) = with_session_open_hook f
option_of (session_close_hook f) = with_session_close_hook f
option_of (tls f) = with_tls f
option_of (log_writer f) = with_log_writer f
option_of (identification id token) = with_identification id token
option_of (token_validator v) = with_token_validator v
option_of (retry_wait least most) = with_retry_wait least most
option_of (retry_max n) = with_retry_max n
option_of (keep_alive_interval n) = with_keep_alive_interval n
option_of (keep_alive b) = with_keep_alive b
option_of (read_write_timeouts r w) = with_read_write_timeouts r w
option_of (session_close_timeout n) = with_session_close_timeout n
option_of (retry_policy rp) = with_retry_policy rp
