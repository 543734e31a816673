-- ===== src/Wire/Client.antt =====
-- The client's connecting loop and its wait between two dials (wirenet.go). What the network, the
-- clock and the other goroutines do in each round is an event. Times are nanoseconds since 1970.
use go_wirenet.Base.{
  ℕ, suc, ◌+◌, ◌-◌, ◌^◌, ◌/◌, Bool, true, false, not, ◌&&◌, ◌||◌, ◌==◌, Option, none, some, List,
  [], ◌∷◌, Bytes, text, leb, if◌then◌else◌,
}
use go_wirenet.Base.Int.{ℤ, pos, negsuc}
use go_wirenet.Go.{Error, message, Go, ok, err, panic, stuck}
use go_wirenet.Wire.State.{Wire}
use go_wirenet.Wire.Server.{closed_by}
use go_wirenet.Wire.Backoff.{Floats, default_retry_policy}

-- `strings.HasPrefix` and `strings.Contains`
abbrev is_prefix : Bytes → Bytes → Bool
is_prefix [] t = true
is_prefix (a ∷ s) [] = false
is_prefix (a ∷ s) (b ∷ t) = (a == b) && is_prefix s t

abbrev has_text : Bytes → Bytes → Bool
has_text s [] = is_prefix s []
has_text s (b ∷ t) = is_prefix s (b ∷ t) || has_text s t

unfoldable pub is_not_conn_err : Error → Bool
is_not_conn_err e = not (has_text (text "connection refused") (message e))

-- `t.Add(d)` and `t.Unix()`
abbrev pub add_duration : ℕ → ℤ → ℕ
add_duration t (pos d) = t + d
add_duration t (negsuc d) = t - suc d

abbrev pub unix : ℕ → ℕ
unix t = t / 10 ^ 9

-- A look at the clock, and whether another goroutine has closed the wire before it.
pub record Reading : Type 0 where
  pub closes : Bool
  pub now : ℕ

-- How a dial goes: no connection, with the time after it and the readings of the wait that follows; a
-- connection on which yamux or the handshake fails; or a session, served until it ends.
pub data Dial : Type 0 where
  no_conn : Error → ℕ → List Reading → Dial
  failed : Error → Dial
  served : Dial

-- A round, and whether another goroutine has closed the wire before it, or during the dial.
pub record Round : Type 0 where
  pub closes : Bool
  pub closes_dialing : Bool
  pub dial : Dial

abbrev pub counted : {H : Type 0} → Wire H → Wire H
counted w = record w { conn_counter = w.conn_counter + 1; conn = false }

abbrev pub connected : {H : Type 0} → Wire H → Wire H
connected w = record w { conn_counter = 0; conn = true }

-- `tryClose` after `setConnFlag(true)`
abbrev pub hung_up : {H : Type 0} → Wire H → Wire H
hung_up w = record w { conn_counter = 0; conn = false }

module _ {H : Type 0} where
  -- `for { if (timeout.Unix() <= time.Now().Unix()) || w.isClosed() { break }; time.Sleep(…) }`.
  -- `stuck` is a loop that goes on after these readings.
  unfoldable pub wait_retry : ℕ → List Reading → Wire H → Go (Unit {0}) × Wire H
  wait_retry timeout [] w = (stuck, w)
  wait_retry timeout (r ∷ rs) w0 =
      let w = closed_by r.closes w0 in
      let rest = wait_retry timeout rs w in
      if leb (unix timeout) (unix r.now) || w.closed then (ok tt, w) else rest

  abbrev pub continue_after :
      (Wire H → Go (Option Error) × Wire H) → Go (Unit {0}) × Wire H → Go (Option Error) × Wire H
  continue_after loop (ok _, w) = loop w
  continue_after loop (err e, w) = (err e, w)
  continue_after loop (panic, w) = (panic, w)
  continue_after loop (stuck, w) = (stuck, w)

module _ (fl : Floats) {H : Type 0} where
  unfoldable pub retry_wait : Wire H → ℕ → ℤ
  unfolding default_retry_policy
  retry_wait w attempt = elim w.retry_policy [
    | none ↦ default_retry_policy fl (pos w.retry_wait_min) (pos w.retry_wait_max) attempt
    | some rp ↦ rp w.retry_wait_min w.retry_wait_max attempt
  ]

  -- After the dial; `loop` is the next round, with the named result `err`, which a round that connects
  -- does not clear.
  abbrev pub after_dial :
      (Option Error → Wire H → Go (Option Error) × Wire H)
      → ℕ
      → Dial
      → Option Error
      → Wire H
      → Go (Option Error) × Wire H
  after_dial loop attempt (no_conn x start readings) e w =
      let timeout = add_duration start (retry_wait w attempt) in
      if is_not_conn_err x
      then (ok (some x), w)
      else continue_after (loop (some x)) (wait_retry timeout readings w)
  after_dial loop attempt (failed x) e w = (ok (some x), hung_up w)
  after_dial loop attempt served e w = loop e (connected w)

  -- `stuck` is a loop that goes on after these rounds.
  unfoldable pub accept_client : List Round → Option Error → Wire H → Go (Option Error) × Wire H
  unfolding is_not_conn_err retry_wait wait_retry
  accept_client [] e w = (stuck, w)
  accept_client (r ∷ rs) e w0 =
      let w = closed_by r.closes w0 in
      if leb w.retry_max w.conn_counter || w.closed
      then (ok e, w)
      else after_dial (λ e' v. accept_client rs e' v) w.conn_counter r.dial e
          (closed_by r.closes_dialing (counted w))
