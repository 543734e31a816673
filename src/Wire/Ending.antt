-- ===== src/Wire/Ending.antt =====
-- What Connect of a client returns when the wire is closed, before a dial or during it.
use go_wirenet.Base.{
  ℕ, ◌+◌, ◌<◌, ◌≡◌, refl, ap, ◌∙◌, true, false, ◌||◌, Option, none, some, List, [], ◌∷◌, arith, leb,
}
use go_wirenet.Go.{Error, ok, stuck}
use go_wirenet.Wire.State.{Peer, Wire}
use go_wirenet.Wire.Server.{closed_by}
use go_wirenet.Wire.Close.{already_closed, close_wire}
use go_wirenet.Wire.Backoff.{Floats}
use go_wirenet.Wire.Client.{
  Reading, Round, no_conn, served, accept_client, retry_wait, counted, connected,
}
use go_wirenet.Wire.Retry.{refused_due, dial_error, is_refusal, is_over}

module _ (fl : Floats) {H : Type 0} where
  -- The loop ends at a wire that is closed, and returns what its named result holds.
  ends_closed :
      (r : Round) (rest : List Round) (e : Option Error) (w : Wire H)
      → (closed_by r.closes w).closed ≡ true
      → (accept_client fl (r ∷ rest) e w).0 ≡ ok e
  unfolding accept_client
  ends_closed r rest e w h =
      let v : Wire H = closed_by r.closes w in
      let stops : (leb v.retry_max v.conn_counter || v.closed) ≡ true = ground (arith, h) in
      rw stops refl

  -- Connect returns a stale refusal: after a first dial that was refused and a session that was then
  -- served until the wire was closed, the result is the error of that first dial.
  pub accept_client_stale :
      (r last : Round) (x : Error) (start : ℕ) (readings : List Reading) (w : Wire H)
      → w.closed ≡ false
      → w.conn_counter + 1 < w.retry_max
      → r ≡ record { closes = false; closes_dialing = false; dial = no_conn x start readings }
      → is_refusal r ≡ true
      → is_over (retry_wait fl w w.conn_counter) r.dial ≡ true
      → last.closes ≡ true
      → (accept_client fl
          (r ∷ record { closes = false; closes_dialing = false; dial = served } ∷ last ∷ [])
          none
          w).0
        ≡ ok (some x)
  unfolding accept_client
  accept_client_stale r last x start readings w is_open k here h due ends =
      let next : List Round =
        record { closes = false; closes_dialing = false; dial = served } ∷ last ∷ [] in
      let first : accept_client fl (r ∷ next) none w ≡ accept_client fl next (some x) (counted w) =
        refused_due fl r next none w is_open (omega arith) h due
        ∙ ap (λ d. accept_client fl next (dial_error none d) (counted w)) (ap (λ q. q.dial) here) in
      let goes : (leb w.retry_max (w.conn_counter + 1) || w.closed) ≡ false = ground arith in
      ap (λ p. p.0) first
      ∙ rw goes (
          ends_closed last [] (some x) (connected (counted (counted w)))
            (ap (λ b. (closed_by b (connected (counted (counted w)))).closed) ends))

  -- A client that is closed while it dials: Close returns no error, the dial goes on, and the session that
  -- it leads to is served although the wire is closed; another Close answers ErrWireClosed and leaves it
  -- running; and Connect returns only once the session has ended.
  pub closed_while_dialing :
      (r last : Round) (rest : List Round) (answer : Peer → Option Error)
      (close_conn e : Option Error) (w : Wire H)
      → w.closed ≡ false
      → w.conn_counter < w.retry_max
      → r ≡ record { closes = false; closes_dialing = true; dial = served }
      → let w' = connected (record (counted w) { closed = true }) in
        (close_wire answer close_conn (counted w) ≡ (none, record (counted w) { closed = true }))
        × (accept_client fl (r ∷ []) e w ≡ (stuck, w'))
        × (close_wire answer close_conn w' ≡ (some already_closed, w'))
        × ((accept_client fl (r ∷ last ∷ rest) e w).0 ≡ ok e)
  unfolding accept_client close_wire
  closed_while_dialing r last rest answer close_conn e w is_open k here =
      let goes : (leb w.retry_max w.conn_counter || w.closed) ≡ false = ground arith in
      let w' : Wire H = connected (record (counted w) { closed = true }) in
      let shut : (closed_by last.closes w').closed ≡ true = ground arith in
      (refl, rw (here, goes) refl, refl, rw (here, goes) (ends_closed last rest e w' shut))
