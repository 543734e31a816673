-- ===== src/Session/Dispatch.antt =====
-- How a session checks and routes a stream that its peer opens, and opens one itself
-- (session.go).
use go_wirenet.Base.{
  ◌≡◌, ◌↔◌, arith, Bool, false, not, ◌&&◌, Option, none, some, Bytes, same_bytes, if◌then◌else◌,
}
use go_wirenet.Go.{
  Error, unexpected_eof, session_closed, is_session_not_found, Go, ok, err, panic, stuck, M, pure,
  throw, ◌>>=◌, or_panic,
}
use go_wirenet.Io.{Reader, Writer}
use go_wirenet.Frame.Format.{Frame, command, payload, is_recv_frame, perm_frame_typ}
use go_wirenet.Frame.Exchange.{Check, send_frame, recv_frame}
use go_wirenet.Wire.State.{Peer, Wire, is_client_side}
use go_wirenet.Wire.Registry.{find_handler, find_session}

-- The error of `_, err = f()`.
abbrev pub error_of {ℓ} : {A : Type ℓ} → Go A → Option Error
error_of (err e) = some e
error_of _ = none

abbrev pub not_found {ℓ} : {A : Type ℓ} → Go A → Bool
not_found (err e) = is_session_not_found e
not_found _ = false

-- Where `dispatchStream` takes a stream: to a handler, to another session, or to the error log.
pub data Route (H : Type 0) : Type 0 where
  handle : H → Route H
  forward : Peer → Route H
  log_error : Error → Route H
  crash : Route H

module _ {H : Type 0} (w : Wire H) where
  unfoldable pub is_hub_side : Bool
  unfolding is_client_side
  is_hub_side = w.hub_mode && not (is_client_side w.role)

  unfoldable pub validate_stream_name : Bytes → Option Error
  unfolding is_hub_side
  validate_stream_name name =
      if is_hub_side
      then (if not_found (find_session name w)
          then error_of (find_handler name w)
          else error_of (find_session name w))
      else error_of (find_handler name w)

  -- `id` is the session's identification.
  unfoldable pub validate_token : Bytes → Bytes → Bytes → Option Error
  validate_token id name token = elim w.verify_token [
    | none ↦ none
    | some verify ↦ verify name id token
  ]

  -- The check that `readFrame` hands to `recvFrame`.
  unfoldable pub check_frame : {S : Type 0} → Bytes → Check S
  unfolding validate_token validate_stream_name
  check_frame id f = do
    cmd ← or_panic (command f)
    token ← or_panic (payload f)
    pure (elim (validate_token id cmd token) [ some e ↦ some e | none ↦ validate_stream_name cmd ])

  unfoldable pub read_frame :
      {S : Type 0} → Reader S → Writer S → Bytes → M S (Frame × Option Error)
  unfolding check_frame
  read_frame r wr id = recv_frame r wr (some (check_frame id))

  unfoldable pub serve : Bytes → Route H
  serve name = elim (find_handler name w) [
    | ok h ↦ handle h
    | err e ↦ log_error e
    | panic ↦ crash
    | stuck ↦ crash
  ]

  -- `serveHub`, up to the choice of the other session.
  unfoldable pub serve_hub : Bytes → Route H
  serve_hub name = elim (find_session name w) [
    | ok p ↦ forward p
    | err e ↦ log_error e
    | panic ↦ crash
    | stuck ↦ crash
  ]

  unfoldable pub route : Bytes → Route H
  unfolding is_hub_side serve serve_hub
  route name =
      if is_hub_side
      then (if not_found (find_session name w) then serve name else serve_hub name)
      else serve name

-- `OpenStream` of a session, up to the new stream: the frame that the peer answered with.
unfoldable pub open_stream : {S : Type 0} → Reader S → Writer S → Bool → Bytes → Bytes → M S Frame
open_stream r wr closed token name = if closed then throw session_closed else (do
  frm ← send_frame r wr name perm_frame_typ token
  cmd ← or_panic (command frm)
  recv ← or_panic (is_recv_frame frm)
  if not (same_bytes cmd name) && not recv then throw unexpected_eof else pure frm)

-- A stream that passes the check of its name is handled or forwarded, and one that does not pass
-- is not: the check and the routing look at the same maps in the same order.
pub validate_stream_name-route :
    {H : Type 0} (w : Wire H) (name : Bytes) (e : Error)
    → (validate_stream_name w name ≡ some e) ↔ (route w name ≡ log_error e)
unfolding validate_stream_name route find_handler find_session
validate_stream_name-route w name e = ground arith
