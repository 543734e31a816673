-- ===== src/Session/Lifecycle/Invariant.antt =====
-- What holds between the calls of `Close` and the goroutine that answers one of them.
use go_wirenet.Base.{ℕ, ◌≡◌, Bool, true, false, Option, none, some, List, Bytes, arith}
use go_wirenet.Session.State.{register_stream, close_stream}
use go_wirenet.Session.Lifecycle.{
  Call, marked, sent, answered, returned, Server, listening, draining, sweeping, closing, replying,
  ended, System, Step, refuse, check, mark, send, sweep, sweep_next, sweep_gone, sweep_new, swept,
  begin_transfer, end_transfer, drained, close_conn, answer, unregister, open_stream, end_stream,
  lose_conn, Reach, here, next, init,
}

-- The call whose channel the goroutine has taken.
abbrev pub served : Server → Option ℕ
served listening = none
served (draining i) = some i
served (sweeping i _) = some i
served (closing i) = some i
served (replying i _) = some i
served (ended i) = some i

-- A call that has met the goroutine.
abbrev pub is_engaged : Call → Bool
is_engaged sent = true
is_engaged (answered _) = true
is_engaged (returned _) = true
is_engaged _ = false

abbrev pub is_answered : Call → Bool
is_answered (answered _) = true
is_answered (returned _) = true
is_answered _ = false

-- A call that has set `closed`.
abbrev pub has_marked : Call → Bool
has_marked marked = true
has_marked c = is_engaged c

abbrev pub is_returned : Call → Bool
is_returned (returned _) = true
is_returned _ = false

abbrev pub has_ended : Server → Bool
has_ended (ended _) = true
has_ended _ = false

-- The goroutine is past the wait for the streams.
abbrev pub has_drained : Server → Bool
has_drained (closing _) = true
has_drained (replying _ _) = true
has_drained (ended _) = true
has_drained _ = false

-- The goroutine is past the connection's `Close`.
abbrev pub has_closed : Server → Bool
has_closed (replying _ _) = true
has_closed (ended _) = true
has_closed _ = false

-- The invariant, as it concerns the call `j`.
pub record Inv (s : System) (j : ℕ) : Type 0 where
  pub owner : is_engaged (s.calls j) ≡ true → served s.server ≡ some j
  pub engaged : served s.server ≡ some j → is_engaged (s.calls j) ≡ true
  pub answered_last : is_answered (s.calls j) ≡ true → has_ended s.server ≡ true
  pub waits : served s.server ≡ some j → has_ended s.server ≡ false → s.calls j ≡ sent
  pub done : served s.server ≡ some j → has_ended s.server ≡ true → is_answered (s.calls j) ≡ true
  pub flagged : has_marked (s.calls j) ≡ true → s.sess.closed ≡ true
  pub left : is_returned (s.calls j) ≡ true → s.registered ≡ false
  pub cancels : has_drained s.server ≡ true → s.cancelled ≡ true
  pub hangs_up : has_closed s.server ≡ true → s.conn_closed ≡ true

-- Every step keeps the invariant.
pub Step-Inv : {s t : System} (j : ℕ) → Step s t → Inv s j → Inv t j
unfolding close_stream register_stream
Step-Inv j (refuse i h c) inv = ground arith
Step-Inv j (check i h c) inv = ground arith
Step-Inv j (mark i h) inv = ground arith
Step-Inv j (send i h c) inv = ground arith
Step-Inv j (sweep i h) inv = ground arith
Step-Inv j (sweep_next i k u rest h free) inv = ground arith
Step-Inv j (sweep_gone i k u rest h gone) inv = ground arith
Step-Inv j (sweep_new i k u rest h there new) inv = ground arith
Step-Inv j (swept i h) inv = ground arith
Step-Inv j (drained i h c) inv = ground arith
Step-Inv j (close_conn i x h) inv = ground arith
Step-Inv j (answer i x h c) inv = ground arith
Step-Inv j (unregister i x h) inv = ground arith
Step-Inv j (open_stream u h) inv = ground arith
Step-Inv j (end_stream u free) inv = ground arith
Step-Inv j (begin_transfer k h) inv = ground arith
Step-Inv j (end_transfer k h) inv = ground arith
Step-Inv j lose_conn inv = ground arith

-- One path after the other.
pub followed : {s t u : System} → Reach s t → Reach t u → Reach s u
followed r here = r
followed r (next r' st) = next (followed r r') st

module _ (sid id : Bytes) (names : List Bytes) where
  init-Inv : (j : ℕ) → Inv (init sid id names) j
  init-Inv j = ground arith

  pub Reach-Inv : {s : System} (j : ℕ) → Reach (init sid id names) s → Inv s j
  Reach-Inv j here = init-Inv j
  Reach-Inv j (next r st) = Step-Inv j st (Reach-Inv j r)
