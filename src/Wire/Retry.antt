-- ===== src/Wire/Retry.antt =====
-- How often a client dials, how long it waits between two dials, and what Connect returns.
use go_wirenet.Base.{
  ℕ, ◌+◌, ◌<◌, ◌≡◌, refl, ◌∙◌, Bool, true, false, not, ◌&&◌, ◌||◌, Option, some, List, [], ◌∷◌,
  arith, leb, if◌then◌else◌, Bool-cases, inl, inr,
}
use go_wirenet.Base.Int.{ℤ}
use go_wirenet.Go.{Error, ok, stuck, Go}
use go_wirenet.Wire.State.{Wire}
use go_wirenet.Wire.Backoff.{Floats}
use go_wirenet.Wire.Client.{
  Reading, Dial, Round, no_conn, failed, served, is_not_conn_err, add_duration, unix, accept_client,
  retry_wait, wait_retry, counted, after_dial,
}

-- Whether some reading shows the second of the deadline, or a later one.
abbrev pub is_due : ℕ → List Reading → Bool
is_due timeout [] = false
is_due timeout (r ∷ rs) = leb (unix timeout) (unix r.now) || is_due timeout rs

-- No other goroutine closes the wire during the wait.
abbrev pub stays_open : List Reading → Bool
stays_open [] = true
stays_open (r ∷ rs) = not r.closes && stays_open rs

-- A wait that nobody interrupts ends at the second of the deadline, and not before it.
wait_retry-is_due :
    {H : Type 0} (timeout : ℕ) (rs : List Reading) (w : Wire H)
    → w.closed ≡ false
    → stays_open rs ≡ true
    → wait_retry timeout rs w ≡ ((if is_due timeout rs then ok tt else stuck), w)
unfolding wait_retry
wait_retry-is_due timeout [] w is_open h = refl
wait_retry-is_due timeout (r ∷ rs) w is_open h =
    ground (arith, wait_retry-is_due timeout rs w is_open)

-- The server refuses the connection, and nobody closes the wire during the wait.
abbrev pub is_refused : Dial → Bool
is_refused (no_conn x start readings) = not (is_not_conn_err x) && stays_open readings
is_refused (failed x) = false
is_refused served = false

abbrev pub is_refusal : Round → Bool
is_refusal r = not r.closes && (not r.closes_dialing && is_refused r.dial)

abbrev pub are_refusals : List Round → Bool
are_refusals [] = true
are_refusals (r ∷ rs) = is_refusal r && are_refusals rs

-- Some reading of the clock after the refusal shows the end of the wait.
abbrev pub is_over : ℤ → Dial → Bool
is_over wait (no_conn x start readings) = is_due (add_duration start wait) readings
is_over wait (failed x) = true
is_over wait served = true

-- Whether all waits come to their end, with the waits of these attempts.
abbrev pub are_over : (ℕ → ℤ) → ℕ → List Round → Bool
are_over wait n [] = true
are_over wait n (r ∷ rs) = is_over (wait n) r.dial && are_over wait (n + 1) rs

-- The dials up to the first one whose wait does not come to its end.
abbrev pub dials : (ℕ → ℤ) → ℕ → List Round → ℕ
dials wait n [] = 0
dials wait n (r ∷ rs) =
    let rest = dials wait (n + 1) rs in if is_over (wait n) r.dial then 1 + rest else 1

abbrev pub dial_error : Option Error → Dial → Option Error
dial_error e (no_conn x start readings) = some x
dial_error e (failed x) = some x
dial_error e served = e

abbrev pub last_error : Option Error → List Round → Option Error
last_error e [] = e
last_error e (r ∷ rs) = last_error (dial_error e r.dial) rs

module _ (fl : Floats) {H : Type 0} where
  -- A loop that has come to the end of a wait goes on, and one that has not waits still.
  abbrev goes_on : Bool → Go (Option Error) × Wire H → Wire H → Go (Option Error) × Wire H
  goes_on true next w = next
  goes_on false next w = (stuck, w)

  refused_dial :
      (loop : Option Error → Wire H → Go (Option Error) × Wire H) (attempt : ℕ) (d : Dial)
      (e : Option Error) (w : Wire H)
      → w.closed ≡ false
      → is_refused d ≡ true
      → after_dial fl loop attempt d e w
        ≡ goes_on (is_over (retry_wait fl w attempt) d) (loop (dial_error e d) w) w
  refused_dial loop attempt (no_conn x start readings) e w is_open h =
      let timeout = add_duration start (retry_wait fl w attempt) in
      let refuses : is_not_conn_err x ≡ false = ground arith in
      let stays : stays_open readings ≡ true = ground arith in
      elim (Bool-cases (is_due timeout readings)) [
        | inl due ↦
            rw (refuses, wait_retry-is_due timeout readings w is_open stays, due, goes_on) refl
        | inr early ↦
            rw (refuses, wait_retry-is_due timeout readings w is_open stays, early, goes_on) refl
      ]
  refused_dial loop attempt (failed x) e w is_open h = cc
  refused_dial loop attempt served e w is_open h = cc

  refused_once :
      (r : Round) (rest : List Round) (e : Option Error) (w : Wire H)
      → w.closed ≡ false
      → w.conn_counter < w.retry_max
      → is_refusal r ≡ true
      → accept_client fl (r ∷ rest) e w
        ≡ goes_on
            (is_over (retry_wait fl w w.conn_counter) r.dial)
            (accept_client fl rest (dial_error e r.dial) (counted w))
            (counted w)
  unfolding accept_client
  refused_once r rest e w is_open left h =
      let stays : r.closes ≡ false = ground (arith, h) in
      let connects : r.closes_dialing ≡ false = ground (arith, h) in
      let refused : is_refused r.dial ≡ true = ground (arith, h) in
      let goes : (leb w.retry_max w.conn_counter || w.closed) ≡ false = ground arith in
      rw (stays, connects, goes)
        (refused_dial (λ e' v. accept_client fl rest e' v) w.conn_counter r.dial e (counted w)
          is_open refused)

  -- With a wait that comes to its end, the next round follows.
  pub refused_due :
      (r : Round) (rest : List Round) (e : Option Error) (w : Wire H)
      → w.closed ≡ false
      → w.conn_counter < w.retry_max
      → is_refusal r ≡ true
      → is_over (retry_wait fl w w.conn_counter) r.dial ≡ true
      → accept_client fl (r ∷ rest) e w ≡ accept_client fl rest (dial_error e r.dial) (counted w)
  refused_due r rest e w is_open left h due =
      refused_once r rest e w is_open left h ∙ rw (due, goes_on) refl
