-- ===== src/Wire/Fresh.antt =====
-- What the constructors of a wire return (wirenet.go), with any options of options.go.
use go_wirenet.Base.{
  ◌<◌, ◌≡◌, refl, ap, ◌∙◌, Bool, true, false, Option, none, some, List, [], ◌∷◌, ◌++◌, arith, Bytes,
  length,
}
use go_wirenet.Go.{ok}
use go_wirenet.Wire.State.{
  Role, client_side, server_side, Wire, WireOption, default_wire, apply_options, new_wire, mount,
  hub, join,
}
use go_wirenet.Wire.Options.{
  Setting, option_of, connect_hook, error_handler, session_open_hook, session_close_hook, tls,
  log_writer, identification, token_validator, retry_wait, retry_max, keep_alive_interval,
  keep_alive, read_write_timeouts, session_close_timeout, retry_policy, with_connect_hook,
  with_error_handler, with_session_open_hook, with_session_close_hook, with_tls, with_log_writer,
  with_identification, with_token_validator, with_retry_wait, with_retry_max,
  with_keep_alive_interval, with_keep_alive, with_read_write_timeouts, with_session_close_timeout,
  with_retry_policy,
}

module _ {H : Type 0} where
  -- A wire that is not connected, and knows no session and no handler.
  abbrev pub IsFresh : Bytes → Role → Bool → Wire H → Type 0
  IsFresh addr role hub w =
      (w.addr ≡ addr)
      × (w.role ≡ role)
      × (w.hub_mode ≡ hub)
      × (w.closed ≡ false)
      × (w.conn ≡ false)
      × (w.conn_counter ≡ 0)
      × (w.sessions ≡ [])
      × (w.stream_index ≡ [])
      × (w.handlers ≡ [])

  -- The arguments of a constructor: nil, or the option that a function of options.go returned.
  abbrev pub options : List (Option Setting) → List (Option (WireOption H))
  options [] = []
  options (none ∷ ss) = none ∷ options ss
  options (some s ∷ ss) = some (option_of s) ∷ options ss

  option_of-IsFresh :
      (s : Setting) (w : Wire H) {addr : Bytes} {role : Role} {hub : Bool}
      → IsFresh addr role hub w
      → IsFresh addr role hub (option_of s w)
  unfolding option_of with_connect_hook with_error_handler with_session_open_hook
      with_session_close_hook with_tls with_log_writer with_identification with_token_validator
      with_retry_wait with_retry_max with_keep_alive_interval with_keep_alive
      with_read_write_timeouts with_session_close_timeout with_retry_policy
  option_of-IsFresh (connect_hook f) w h = h
  option_of-IsFresh (error_handler f) w h = h
  option_of-IsFresh (session_open_hook f) w h = h
  option_of-IsFresh (session_close_hook f) w h = h
  option_of-IsFresh (tls f) w h = h
  option_of-IsFresh (log_writer f) w h = h
  option_of-IsFresh (identification id token) w h = h
  option_of-IsFresh (token_validator v) w h = h
  option_of-IsFresh (retry_wait least most) w h = h
  option_of-IsFresh (retry_max n) w h = h
  option_of-IsFresh (keep_alive_interval n) w h = h
  option_of-IsFresh (keep_alive b) w h = h
  option_of-IsFresh (read_write_timeouts r t) w h = h
  option_of-IsFresh (session_close_timeout n) w h = h
  option_of-IsFresh (retry_policy rp) w h = h

  applied-IsFresh :
      (ss : List (Option Setting)) (w : Wire H) {addr : Bytes} {role : Role} {hub : Bool}
      → IsFresh addr role hub w
      → IsFresh addr role hub (apply_options (options ss) w)
  unfolding apply_options
  applied-IsFresh [] w h = h
  applied-IsFresh (none ∷ ss) w h = applied-IsFresh ss w h
  applied-IsFresh (some s ∷ ss) w h = applied-IsFresh ss (option_of s w) (option_of-IsFresh s w h)

  apply_options-append :
      (xs ys : List (Option (WireOption H))) (w : Wire H)
      → apply_options (xs ++ ys) w ≡ apply_options ys (apply_options xs w)
  unfolding apply_options
  apply_options-append [] ys w = refl
  apply_options-append (none ∷ xs) ys w = apply_options-append xs ys w
  apply_options-append (some f ∷ xs) ys w = apply_options-append xs ys (f w)

  new_wire_ok :
      (addr : Bytes) (role : Role) (opts : List (Option (WireOption H)))
      → 0 < length addr
      → new_wire addr role opts ≡ ok (apply_options opts (default_wire addr role))
  unfolding new_wire
  new_wire_ok addr role opts h = ground arith

  default_wire-IsFresh :
      (addr : Bytes) (role : Role) → IsFresh addr role false (default_wire addr role)
  unfolding default_wire
  default_wire-IsFresh addr role = (refl, refl, refl, refl, refl, refl, refl, refl, refl)

  new_wire-IsFresh :
      (addr : Bytes) (role : Role) (ss : List (Option Setting))
      → 0 < length addr
      → (w : Wire H) × (new_wire addr role (options ss) ≡ ok w) × IsFresh addr role false w
  new_wire-IsFresh addr role ss h = (
    apply_options (options ss) (default_wire addr role),
    new_wire_ok addr role (options ss) h,
    applied-IsFresh ss (default_wire addr role) (default_wire-IsFresh addr role),
  )

  -- With an address that is not empty and any options of the package, in any order and nil among
  -- them, Mount, Join and Hub return a wire that is neither connected nor closed, with no session
  -- and no handler, at that address; Join's is a client and the others are servers, and Hub's is
  -- in hub mode.
  pub constructors-IsFresh :
      (addr : Bytes) (ss : List (Option Setting))
      → 0 < length addr
      → ((w : Wire H) × (mount addr (options ss) ≡ ok w) × IsFresh addr server_side false w)
        × ((w : Wire H) × (join addr (options ss) ≡ ok w) × IsFresh addr client_side false w)
        × ((w : Wire H) × (hub addr (options ss) ≡ ok w) × IsFresh addr server_side true w)
  unfolding mount join hub apply_options
  constructors-IsFresh addr ss h =
      let w : Wire H = apply_options (options ss) (default_wire addr server_side) in
      let base =
        applied-IsFresh ss (default_wire addr server_side)
          (default_wire-IsFresh addr server_side) in
      let f : WireOption H = λ v. record v { hub_mode = true } in
      (
        new_wire-IsFresh addr server_side ss h,
        new_wire-IsFresh addr client_side ss h,
        (
          record w { hub_mode = true },
          new_wire_ok addr server_side (options ss ++ some f ∷ []) h
              ∙ ap ok (
                  apply_options-append (options ss) (some f ∷ []) (default_wire addr server_side)
                  ∙ refl),
          (base.0, base.1, refl, base.3, base.4, base.5, base.6, base.7, base.8),
        ),
      )
