-- ===== src/Session/Opening.antt =====
-- Which streams a session serves, and what its goroutine leaves behind (session.go).
use go_wirenet.Base.{
  ◌≡◌, refl, sym, ap, ◌∙◌, Bool, true, false, ◌||◌, Option, none, some, List, [], ◌∷◌, ◌++◌, map,
  append_assoc, append-nil, arith, same_bytes_self, if◌then◌else◌,
}
use go_wirenet.Base.Assoc.{lookup, lookup-remove}
use go_wirenet.Go.{Error, ok}
use go_wirenet.Wire.State.{Peer, Wire}
use go_wirenet.Wire.Registry.{register_session, unregister_session}
use go_wirenet.Session.State.{Session}
use go_wirenet.Session.Shutdown.{Round, close_session}
use go_wirenet.Session.Counting.{overdue, Counts, IsKeyed, wait_streams-empty}
use go_wirenet.Session.Open.{Offer, accept_streams, open_session_loop, after_accept, leave}

-- A round that brings a connection, by the other goroutines' work on the session, the wire's flag
-- and the connection.
abbrev pub brings : {C : Type 0} → (Session → Session) × Bool × C → Offer C
brings (others, shut, c) = record { others = others; wire_closed = shut; conn = some c }

module _ {C : Type 0} where
  -- The session behind some rounds.
  abbrev pub settle : List ((Session → Session) × Bool × C) → Session → Session
  settle [] s = s
  settle ((others, shut, c) ∷ rest) s = settle rest (others s)

  -- In each of these rounds the session or the wire is closed, or neither is.
  abbrev pub AreAll : Bool → List ((Session → Session) × Bool × C) → Session → Type 0
  AreAll flag [] s = Unit
  AreAll flag ((others, shut, c) ∷ rest) s =
      ((others s).closed || shut ≡ flag) × AreAll flag rest (others s)

  abbrev pub conns : List ((Session → Session) × Bool × C) → List C
  conns [] = []
  conns ((others, shut, c) ∷ rest) = c ∷ conns rest

  dispatched_all :
      (rs : List ((Session → Session) × Bool × C)) (rest : List (Offer C)) (d : List C)
      (s : Session)
      → AreAll false rs s
      → accept_streams (map brings rs ++ rest) d s
        ≡ accept_streams rest (d ++ conns rs) (settle rs s)
  unfolding accept_streams
  dispatched_all [] rest d s h = ap (λ t. accept_streams rest t s) (sym (append-nil d))
  dispatched_all ((others, shut, c) ∷ rs) rest d s h =
      rw h.0 (dispatched_all rs rest (d ++ c ∷ []) (others s) h.1)
      ∙ ap (λ t. accept_streams rest t (settle rs (others s))) (append_assoc d (c ∷ []) (conns rs))

  dispatched_none :
      (rs : List ((Session → Session) × Bool × C)) (rest : List (Offer C)) (d : List C)
      (s : Session)
      → AreAll true rs s
      → accept_streams (map brings rs ++ rest) d s ≡ accept_streams rest d (settle rs s)
  unfolding accept_streams
  dispatched_none [] rest d s h = refl
  dispatched_none ((others, shut, c) ∷ rs) rest d s h =
      rw h.0 (dispatched_none rs rest d (others s) h.1)

last_offer :
    {C : Type 0} (last : Offer C) (d : List C) (s : Session)
    → last.conn ≡ none
    → accept_streams (last ∷ []) d s ≡ (ok tt, d, last.others s)
unfolding accept_streams
last_offer last d s failed = rw failed refl

unregistered :
    {H : Type 0} (p : Peer) (w : Wire H) → lookup p.id (unregister_session p w).0.sessions ≡ none
unfolding unregister_session
unregistered p w = ground (arith, lookup-remove p.id p.id w.sessions, same_bytes_self p.id)

-- Close of an open session, past the deadline.
closes :
    (s : Session) (conn_closed : Bool) (e : Option Error)
    → s.closed ≡ false
    → Counts s
    → IsKeyed s.streams
    → (s' : Session) × (close_session (overdue ∷ overdue ∷ []) conn_closed e s
        ≡ (ok (if conn_closed then none else e), s'))
      × (s'.active_streams ≡ 0)
      × (s'.streams ≡ [])
      × (s'.closed ≡ true)
unfolding close_session
closes s conn_closed e is_open h keyed =
    let counts : Counts (record s { closed = true }) = record {
      is_map = h.is_map;
      counted = h.counted;
    } in
    let (s', ran, idle, empty, shut) =
      wait_streams-empty (record s { closed = true }) counts keyed in
    (s', rw (is_open, ran) refl, idle, empty, shut)

module _ {C H : Type 0} (meanwhile : Wire H → Wire H) (e : Option Error) (p : Peer) where
  -- A session gets a goroutine for each stream that comes while the session and the wire are open,
  -- in order, and for none of those that come after. When AcceptStream fails and the session is
  -- still open then, its counter is the number of the streams that it keeps, each of them once and
  -- under its id, and no ReadFrom or WriteTo runs on them, it is closed, its streams are gone once the
  -- deadline has passed, and it is off the wire, whatever others make of the wire meanwhile.
  pub open_session_loop_serves :
      (before after : List ((Session → Session) × Bool × C)) (last : Offer C) (conn_closed : Bool)
      (s : Session) (w : Wire H)
      → AreAll false before s
      → AreAll true after (settle before s)
      → last.conn ≡ none
      → (last.others (settle after (settle before s))).closed ≡ false
      → Counts (last.others (settle after (settle before s)))
      → IsKeyed (last.others (settle after (settle before s))).streams
      → let offers = map brings before ++ (map brings after ++ last ∷ []) in
        let there = meanwhile (register_session p w) in
        let (w', was_last) = unregister_session p there in
        (s' : Session) × (open_session_loop meanwhile offers
            (overdue ∷ overdue ∷ [])
            conn_closed
            e
            p
            s
            w
          ≡ ((ok (if conn_closed then none else e, was_last), s', w'), conns before))
        × (s'.closed ≡ true)
        × (s'.active_streams ≡ 0)
        × (s'.streams ≡ [])
        × (lookup p.id w'.sessions ≡ none)
  unfolding open_session_loop
  open_session_loop_serves before after last conn_closed s w opened shut failed is_open counts
        keyed =
      let s1 : Session = last.others (settle after (settle before s)) in
      let there : Wire H = meanwhile (register_session p w) in
      let rounds : List Round = overdue ∷ overdue ∷ [] in
      let answer : Option Error = if conn_closed then none else e in
      let (s', ran, idle, empty, ended) = closes s1 conn_closed e is_open counts keyed in
      let accepted : accept_streams (map brings before ++ (map brings after ++ last ∷ [])) [] s
          ≡ (ok tt, conns before, s1) =
        dispatched_all before (map brings after ++ last ∷ []) [] s opened
        ∙ dispatched_none after (last ∷ []) (conns before) (settle before s) shut
        ∙ last_offer last (conns before) (settle after (settle before s)) failed in
      (
        s',
        ap (after_accept rounds conn_closed e p there) accepted
            ∙ ap (λ c. (leave s1.closed p there c, conns before)) ran
            ∙ ap (λ b. (leave b p there (ok answer, s'), conns before)) is_open,
        ended,
        idle,
        empty,
        unregistered p there,
      )
