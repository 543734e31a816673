-- ===== src/Wire/Lifecycle/Answers.antt =====
-- Which calls get past the wire's channel of shutdown requests.
use go_wirenet.Base.{
  ℕ, ◌≡◌, ◌≢◌, refl, ap, ◌∙◌, Bool, true, false, none, List, [], ◌∷◌, arith, same_bytes_iff,
}
use go_wirenet.Base.Assoc.{remove, insert}
use go_wirenet.Errors.Defs.{new_shutdown_error, is_filled}
use go_wirenet.Wire.State.{Peer, Wire, client_side, is_client_side}
use go_wirenet.Wire.Registry.{register_session, unregister_session, set_conn_flag}
use go_wirenet.Wire.Lifecycle.{
  idle, connected, found_open, sending, sent, returned, listening, taken, closing, replying, ended,
  Acceptor, stopped, System, Step, find_unconnected, close_early, find_connected, refuse, check,
  mark, send, snapshot, close_next, close_conn, answer, accept, accept_fails, finish, drop, greet,
  no_mux, not_shaken, start, register, leave, leave_last, empties, emptied, hang_up, find_shut,
  close_too, Reach, here, next, init, values, set_call,
}
use go_wirenet.Wire.Lifecycle.Invariant.{follow, is_engaged, Reach-Inv}

module _ {H : Type 0} (w : Wire H) (a : Acceptor) (ps : List Peer) where
  -- Of any number of calls, of `Close` or by sessions that are the last to leave a client, and
  -- whatever else goes on, at most one gets past the channel of shutdown requests.
  pub one_shutdown :
      {s : System H}
      → Reach (init w a ps) s
      → (i j : ℕ) → is_engaged (s.calls i) ≡ true
      → is_engaged (s.calls j) ≡ true
      → i ≡ j
  one_shutdown r i j x y = ground (arith, Reach-Inv w a ps i r, Reach-Inv w a ps j r)

module _ {H : Type 0} where
  -- The goroutine takes one channel only, so a call that comes after it waits on.
  waiting-Step :
      {s t : System H} (j : ℕ) (b : Bool)
      → Step s t
      → s.server ≢ listening
      → s.calls j ≡ sending b
      → (t.server ≢ listening) × (t.calls j ≡ sending b)
  waiting-Step j b (find_unconnected i h c) busy m = ground arith
  waiting-Step j b (close_early i h) busy m = ground arith
  waiting-Step j b (find_connected i h c) busy m = ground arith
  waiting-Step j b (refuse i h c) busy m = ground arith
  waiting-Step j b (check i h c) busy m = ground arith
  waiting-Step j b (mark i h) busy m = ground arith
  waiting-Step j b (send i x h c) busy m = ground arith
  waiting-Step j b (snapshot i h) busy m = ground arith
  waiting-Step j b (close_next i p rest acc e h) busy m = ground arith
  waiting-Step j b (close_conn i acc e h) busy m = ground arith
  waiting-Step j b (answer i acc x h c) busy m = ground arith
  waiting-Step j b (accept h c) busy m = (busy, m)
  waiting-Step j b (accept_fails e h) busy m = (busy, m)
  waiting-Step j b (finish e h) busy m = (busy, m)
  waiting-Step j b (drop h c) busy m = (busy, m)
  waiting-Step j b (greet h c) busy m = (busy, m)
  waiting-Step j b (no_mux e h) busy m = (busy, m)
  waiting-Step j b (not_shaken h) busy m = (busy, m)
  waiting-Step j b (start p h) busy m = (busy, m)
  waiting-Step j b (register xs ys p h) busy m = (busy, m)
  waiting-Step j b (leave p h) busy m = (busy, m)
  waiting-Step j b (leave_last i p h c) busy m = ground arith
  waiting-Step j b (hang_up e h) busy m = (busy, m)
  waiting-Step j b (find_shut i h c) busy m = ground arith
  waiting-Step j b (close_too i h c) busy m = ground arith

  pub waiting-Reach :
      {s t : System H} (j : ℕ) (b : Bool)
      → Reach s t
      → s.server ≢ listening
      → s.calls j ≡ sending b
      → (t.server ≢ listening) × (t.calls j ≡ sending b)
  waiting-Reach j b here busy m = (busy, m)
  waiting-Reach j b (next r st) busy m =
      let (busy', m') = waiting-Reach j b r busy m in waiting-Step j b st busy' m'

only_session_leaves :
    {H : Type 0} (w : Wire H) (p : Peer)
    → w.role ≡ client_side
    → w.sessions ≡ []
    → (empties p (register_session p w) ≡ true)
      × ((unregister_session p (register_session p w)).0.sessions ≡ [])
unfolding register_session unregister_session insert remove
only_session_leaves w p client empty =
    let gone = same_bytes_iff p.id p.id in rw (client, empty, is_client_side) ground (arith, gone)

module _ {H : Type 0} (s : System H) (i : ℕ) where
  -- With no session registered, a call that finds the goroutine listening returns by five steps of
  -- the two.
  pub answered_alone :
      (b : Bool)
      → s.server ≡ listening
      → s.calls i ≡ sending b
      → s.wire.sessions ≡ []
      → (t : System H) × Reach s t
        × (t.calls i ≡ returned b none)
        × (t.server ≡ ended i)
        × (t.wire ≡ s.wire)
        × (t.pending ≡ s.pending)
        × (t.acceptor ≡ s.acceptor)
        × ((j : ℕ) → i ≢ j → t.calls j ≡ s.calls j)
  unfolding is_filled
  answered_alone b free m empty =
      let s1 : System H = set_call i (sent b) (record s { server = taken i }) in
      let s2 : System H = record s1 {
        server = closing i (values s.wire.sessions) new_shutdown_error;
        late = [];
        already = [];
      } in
      let s3 : System H = record s2 {
        server = replying i new_shutdown_error;
        conn_closed = true;
      } in
      let s4 : System H = set_call i (returned b none) (record s3 { server = ended i }) in
      let c1 : Step s s1 = send i b m free in
      let c2 : Step s1 s2 = snapshot i refl in
      let c3 : Step s2 s3 =
        close_conn i new_shutdown_error none
          (ap (λ m. closing i (values m) new_shutdown_error) empty) in
      let c4 : Step s3 s4 = answer i new_shutdown_error b refl (ground arith) in
      (
        s4,
        next (next (next (next here c1) c2) c3) c4,
        ground arith,
        refl,
        refl,
        refl,
        refl,
        λ j ne. ground arith,
      )

  -- The session leaves after `isClosed` and before `closeup` of the call `j`.
  leaves_between :
      (p : Peer) (j : ℕ)
      → i ≢ j
      → s.calls i ≡ idle
      → s.calls j ≡ idle
      → s.wire.conn ≡ true
      → s.wire.closed ≡ false
      → empties p s.wire ≡ true
      → (t : System H) × Reach s t
        × (t.calls i ≡ sending false)
        × (t.calls j ≡ sending true)
        × (t.server ≡ s.server)
        × (t.wire.sessions ≡ (unregister_session p s.wire).0.sessions)
  unfolding unregister_session
  leaves_between p j ne fi fj conn is_open last =
      let w1 : Wire H = (unregister_session p s.wire).0 in
      let w2 : Wire H = record w1 { closed = true } in
      let s1 : System H = set_call j connected s in
      let s2 : System H = set_call j found_open s1 in
      let s3 : System H = set_call i emptied (record s2 { wire = w1 }) in
      let s4 : System H = set_call i (sending false) s3 in
      let s5 : System H = set_call j (sending true) (record s4 { wire = w2 }) in
      let c1 : Step s s1 = find_connected j fj conn in
      let c2 : Step s1 s2 = check j (ground arith) is_open in
      let c3 : Step s2 s3 = leave_last i p (ground arith) last in
      let c4 : Step s3 s4 = close_too i (ground arith) is_open in
      let c5 : Step s4 s5 = mark j (ground arith) in
      (
        s5,
        next (next (next (next (next here c1) c2) c3) c4) c5,
        ground arith,
        ground arith,
        refl,
        refl,
      )

-- A client's session that ends can take the goroutine of shutdown from a call of `Close` that has
-- found the wire open: the session's call returns, and `Close`, which has set the flag, waits to
-- send its channel for ever, whatever happens.
pub leaving_session_blocks :
    {H : Type 0} (w : Wire H) (p : Peer) (i j : ℕ)
    → i ≢ j
    → w.role ≡ client_side
    → w.closed ≡ false
    → w.sessions ≡ []
    → (s : System H) × Reach (init w (stopped none) (p ∷ [])) s
      × (s.calls i ≡ returned false none)
      × (s.calls j ≡ sending true)
      × ((t : System H) → Reach s t → t.calls j ≡ sending true)
unfolding register_session set_conn_flag
leaving_session_blocks {H} w p i j ne client is_open empty =
    let (last, gone) = only_session_leaves (set_conn_flag true w) p client empty in
    let s0 : System H = init w (stopped none) (p ∷ []) in
    let s1 : System H = record s0 {
      wire = register_session p s0.wire;
      pending = [];
      late = p.id ∷ [];
    } in
    let (t, r1, fi, fj, free, left) = leaves_between s1 i p j ne refl refl refl is_open last in
    let (u, r2, back, over, _, _, _, others) = answered_alone t i false free fi (left ∙ gone) in
    let waits : u.calls j ≡ sending true = others j ne ∙ fj in
    (
      u,
      follow (follow (next here (register [] [] p refl)) r1) r2,
      back,
      waits,
      λ v r. (waiting-Reach j true r (λ e. cc) waits).1,
    )
