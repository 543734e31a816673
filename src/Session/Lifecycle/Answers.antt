-- ===== src/Session/Lifecycle/Answers.antt =====
-- Which calls of `Close` get an answer.
use go_wirenet.Base.{
  ℕ, ◌≡◌, ◌≢◌, refl, true, false, if◌then◌else◌, Option, none, List, Bytes, arith,
}
use go_wirenet.Go
use go_wirenet.Session.Lifecycle.{
  Call, idle, checked, marked, sent, answered, returned, listening, System, Step, refuse, check,
  mark, send, sweep, sweep_next, sweep_gone, sweep_new, swept, begin_transfer, end_transfer,
  drained, close_conn, answer, unregister, open_stream, end_stream, lose_conn, Reach, here, next,
  init, set_call, replying, closing, draining, ended,
}
use go_wirenet.Session.State.{new_session}
use go_wirenet.Session.Lifecycle.Invariant.{followed, is_engaged, Reach-Inv}

-- The answer of the goroutine goes to one call: of any number of calls of `Close`, in any order of
-- their steps and of the streams' comings and goings, at most one gets past the channel.
pub one_answer :
    (sid id : Bytes) (names : List Bytes) {s : System}
    → Reach (init sid id names) s
    → (i j : ℕ) → is_engaged (s.calls i) ≡ true
    → is_engaged (s.calls j) ≡ true
    → i ≡ j
one_answer sid id names r i j a b =
    ground (arith, Reach-Inv sid id names i r, Reach-Inv sid id names j r)

-- A call of `Close` that has returned with an answer leaves the session closed, its context
-- cancelled, its connection closed and the session off the wire, whatever else goes on.
pub returned-closed :
    (sid id : Bytes) (names : List Bytes) {s : System}
    → Reach (init sid id names) s
    → (i : ℕ) (e : Option Go.Error) → s.calls i ≡ returned e
    → (s.sess.closed ≡ true)
      × (s.cancelled ≡ true)
      × (s.conn_closed ≡ true)
      × (s.registered ≡ false)
returned-closed sid id names r i e h = ground (arith, Reach-Inv sid id names i r)

marked-Step :
    {s t : System} (j : ℕ)
    → Step s t
    → s.server ≢ listening
    → s.calls j ≡ marked
    → (t.server ≢ listening) × (t.calls j ≡ marked)
marked-Step j (refuse i h c) busy m = ground arith
marked-Step j (check i h c) busy m = ground arith
marked-Step j (mark i h) busy m = ground arith
marked-Step j (send i h c) busy m = ground arith
marked-Step j (sweep i h) busy m = ground arith
marked-Step j (sweep_next i k u rest h free) busy m = ground arith
marked-Step j (sweep_gone i k u rest h gone) busy m = ground arith
marked-Step j (sweep_new i k u rest h there new) busy m = ground arith
marked-Step j (swept i h) busy m = ground arith
marked-Step j (drained i h c) busy m = ground arith
marked-Step j (close_conn i x h) busy m = ground arith
marked-Step j (answer i x h c) busy m = ground arith
marked-Step j (unregister i x h) busy m = ground arith
marked-Step j (open_stream u h) busy m = ground arith
marked-Step j (end_stream u free) busy m = ground arith
marked-Step j (begin_transfer k h) busy m = (busy, m)
marked-Step j (end_transfer k h) busy m = (busy, m)
marked-Step j lose_conn busy m = ground arith

marked-Reach :
    {s t : System} (j : ℕ)
    → Reach s t
    → s.server ≢ listening
    → s.calls j ≡ marked
    → (t.server ≢ listening) × (t.calls j ≡ marked)
marked-Reach j here busy m = (busy, m)
marked-Reach j (next r st) busy m =
    let (busy', m') = marked-Reach j r busy m in marked-Step j st busy' m'

module _ (i j : ℕ) (ne : i ≢ j) where
  -- Both calls stand at the same place, and the goroutine and the streams rest.
  abbrev AreAt : Call → System → Type 0
  AreAt c s =
      (s.calls i ≡ c)
      × (s.calls j ≡ c)
      × (s.server ≡ listening)
      × (s.sess.active_streams ≡ 0)
      × (s.conn_closed ≡ false)

  both_find :
      (s : System)
      → s.sess.closed ≡ false
      → AreAt idle s
      → (t : System) × Reach s t × AreAt checked t
  both_find s is_open (ci, cj, free, rests, up) =
      let s1 : System = set_call i checked s in
      let c1 : Step s s1 = check i ci is_open in
      let c2 : Step s1 (set_call j checked s1) = check j (ground arith) is_open in
      (set_call j checked s1, next (next here c1) c2, (ground arith, ground arith, free, rests, up))

  both_mark : (s : System) → AreAt checked s → (t : System) × Reach s t × AreAt marked t
  both_mark s (ci, cj, free, rests, up) =
      let s1 : System = set_call i marked (record s { sess = record s.sess { closed = true } }) in
      let s2 : System = set_call j marked (record s1 { sess = record s1.sess { closed = true } }) in
      let c2 : Step s1 s2 = mark j (ground arith) in
      (s2, next (next here (mark i ci)) c2, (ground arith, ground arith, free, rests, up))

  one_taken :
      (s : System)
      → AreAt marked s
      → (t : System) × Reach s t
        × (t.server ≡ closing i)
        × (t.calls i ≡ sent)
        × (t.calls j ≡ marked)
        × (t.conn_closed ≡ false)
  one_taken s (ci, cj, free, rests, up) =
      let s1 : System = set_call i sent (record s { server = draining i }) in
      let s2 : System = record s1 { server = closing i; cancelled = true } in
      let c2 : Step s1 s2 = drained i refl rests in
      (s2, next (next here (send i ci free)) c2, refl, ground arith, ground arith, up)

  one_returns :
      (s : System)
      → s.server ≡ closing i
      → s.calls i ≡ sent
      → s.calls j ≡ marked
      → s.conn_closed ≡ false
      → (t : System) × Reach s t
        × (t.calls i ≡ returned none)
        × (t.calls j ≡ marked)
        × (t.server ≡ ended i)
  one_returns s h ci cj up =
      let e : Option Go.Error = if s.conn_closed then none else none in
      let s1 : System = record s { server = replying i e; conn_closed = true } in
      let s2 : System = set_call i (answered e) (record s1 { server = ended i }) in
      let s3 : System = set_call i (returned e) (record s2 { registered = false }) in
      let c2 : Step s1 s2 = answer i e refl ci in
      let c3 : Step s2 s3 = unregister i e (ground arith) in
      (s3, next (next (next here (close_conn i none h)) c2) c3, ground arith, ground arith, refl)

-- Two calls of `Close` that both find the session open: one of them can return with an answer while
-- the other has set the flag and waits to send its channel, and from there on it waits for ever,
-- whatever happens.
pub racing_close_waits :
    (sid id : Bytes) (names : List Bytes) (i j : ℕ)
    → i ≢ j
    → (s : System) × Reach (init sid id names) s
      × (s.calls i ≡ returned none)
      × (s.calls j ≡ marked)
      × ((t : System) → Reach s t → t.calls j ≡ marked)
unfolding new_session
racing_close_waits sid id names i j ne =
    let (s1, r1, at1) = both_find i j ne (init sid id names) refl (refl, refl, refl, refl, refl) in
    let (s2, r2, at2) = both_mark i j ne s1 at1 in
    let (s3, r3, server, ci, cj, up) = one_taken i j ne s2 at2 in
    let (s4, r4, back, waits, over) = one_returns i j ne s3 server ci cj up in
    (
      s4,
      followed (followed (followed r1 r2) r3) r4,
      back,
      waits,
      λ t r. (marked-Reach j r (λ e. cc) waits).1,
    )
