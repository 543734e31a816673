-- ===== src/Wire/Lifecycle/Invariant.antt =====
-- What holds between the calls of a wire's `Close` and the goroutine that answers one of them.
use go_wirenet.Base.{
  ℕ, ◌≡◌, refl, Bool, true, false, Option, none, some, List, arith, if◌then◌else◌,
}
use go_wirenet.Go.{Error}
use go_wirenet.Wire.State.{Peer, Wire, is_client_side}
use go_wirenet.Wire.Registry.{register_session, unregister_session, set_conn_flag}
use go_wirenet.Wire.Close.{after_close}
use go_wirenet.Wire.Lifecycle.{
  Call, sending, sent, returned, Server, listening, taken, closing, replying, ended, hanging,
  System, Step, find_unconnected, close_early, find_connected, refuse, check, mark, send, snapshot,
  close_next, close_conn, answer, accept, accept_fails, finish, drop, greet, no_mux, not_shaken,
  start, register, leave, leave_last, hang_up, find_shut, close_too, Reach, here, next, init,
  Acceptor, hangs,
}

-- The call whose channel the goroutine has taken.
abbrev pub served : Server → Option ℕ
served listening = none
served (taken i) = some i
served (closing i _ _) = some i
served (replying i _) = some i
served (ended i) = some i
served (hanging i) = some i

abbrev pub is_sent : Call → Bool
is_sent (sent _) = true
is_sent _ = false

abbrev pub is_returned : Call → Bool
is_returned (returned _ _) = true
is_returned _ = false

-- A call that has met the goroutine.
abbrev pub is_engaged : Call → Bool
is_engaged c = if is_sent c then true else is_returned c

-- A call of `Close` that has set `closed` and goes on to the goroutine.
abbrev pub is_close : Call → Bool
is_close (sending b) = b
is_close (sent b) = b
is_close (returned b _) = b
is_close _ = false

abbrev pub has_ended : Server → Bool
has_ended (ended _) = true
has_ended _ = false

-- The goroutine is past `conn.Close()`.
abbrev pub has_closed : Server → Bool
has_closed (replying _ _) = true
has_closed (ended _) = true
has_closed _ = false

abbrev pub is_hanging : Server → Bool
is_hanging (hanging _) = true
is_hanging _ = false

-- The invariant, as it concerns the call `j`.
pub record Inv {H : Type 0} (s : System H) (j : ℕ) : Type 0 where
  pub owner : is_engaged (s.calls j) ≡ true → served s.server ≡ some j
  pub answered : is_returned (s.calls j) ≡ true → has_ended s.server ≡ true
  pub waits : served s.server ≡ some j → has_ended s.server ≡ false → is_sent (s.calls j) ≡ true
  pub done : served s.server ≡ some j → has_ended s.server ≡ true → is_returned (s.calls j) ≡ true
  pub flagged : is_close (s.calls j) ≡ true → s.wire.closed ≡ true
  pub not_hung :
      served s.server ≡ some j → is_close (s.calls j) ≡ true → is_hanging s.server ≡ false
  pub hangs_up : has_closed s.server ≡ true → s.conn_closed ≡ true

module _ {H : Type 0} where
  pub closed-after_close :
      (e : Option Error) (p : Peer) (w : Wire H) → (after_close e p w).closed ≡ w.closed
  unfolding after_close unregister_session
  closed-after_close none p w = refl
  closed-after_close (some e) p w = ground arith

  -- Only a session of a wire that is not closed goes on to `w.close()`.
  pub hangs-closed :
      (e : Option Error) (p : Peer) (w : Wire H) → w.closed ≡ true → hangs e p w ≡ false
  unfolding unregister_session is_client_side
  hangs-closed none p w h = ground (arith, h)
  hangs-closed (some e) p w h = ground (arith, h)

  pub follow : {s t u : System H} → Reach s t → Reach t u → Reach s u
  follow r here = r
  follow r (next r' st) = next (follow r r') st

  -- Every step keeps the invariant.
  pub Step-Inv : {s t : System H} (j : ℕ) → Step s t → Inv s j → Inv t j
  unfolding register_session unregister_session set_conn_flag
  Step-Inv j (find_unconnected i h c) inv = ground arith
  Step-Inv j (close_early i h) inv = ground arith
  Step-Inv j (find_connected i h c) inv = ground arith
  Step-Inv j (refuse i h c) inv = ground arith
  Step-Inv j (check i h c) inv = ground arith
  Step-Inv j (mark i h) inv = ground arith
  Step-Inv j (send i b h c) inv = ground arith
  Step-Inv j (snapshot i h) inv = ground arith
  Step-Inv {s} j (close_next i p rest acc e h) inv =
      ground (arith, closed-after_close e p s.wire, hangs-closed e p s.wire)
  Step-Inv j (close_conn i acc e h) inv = ground arith
  Step-Inv j (answer i acc b h c) inv = ground arith
  Step-Inv j (accept h c) inv = ground arith
  Step-Inv j (accept_fails e h) inv = ground arith
  Step-Inv j (finish e h) inv = ground arith
  Step-Inv j (drop h c) inv = ground arith
  Step-Inv j (greet h c) inv = ground arith
  Step-Inv j (no_mux e h) inv = ground arith
  Step-Inv j (not_shaken h) inv = ground arith
  Step-Inv j (start p h) inv = ground arith
  Step-Inv j (register xs ys p h) inv = ground arith
  Step-Inv j (leave p h) inv = ground arith
  Step-Inv j (leave_last i p h c) inv = ground arith
  Step-Inv j (hang_up e h) inv = ground arith
  Step-Inv j (find_shut i h c) inv = ground arith
  Step-Inv j (close_too i h c) inv = ground arith

module _ {H : Type 0} (w : Wire H) (a : Acceptor) (ps : List Peer) where
  init-Inv : (j : ℕ) → Inv (init w a ps) j
  init-Inv j = ground arith

  pub Reach-Inv : {s : System H} (j : ℕ) → Reach (init w a ps) s → Inv s j
  Reach-Inv j here = init-Inv j
  Reach-Inv j (next r st) = Step-Inv j st (Reach-Inv j r)
