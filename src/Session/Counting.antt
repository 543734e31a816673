-- ===== src/Session/Counting.antt =====
-- The stream counter against the map of streams, and what a second Close of a stream does.
use go_wirenet.Base.{
  Bytes, suc, ◌+◌, ◌-◌, ◌≤◌, ◌<◌, ◌≡◌, refl, ap, ◌∙◌, true, false, none, some, List, [], ◌∷◌, arith,
  length, same_bytes_iff, ◌==◌, Bool-cases, inl, inr,
}
use go_wirenet.Base.Assoc.{
  Assoc, lookup, insert, remove, IsMap, remove-IsMap, insert-IsMap, length-remove, remove_missing,
}
use go_wirenet.Go.{Go, ok, continue}
use go_wirenet.Stream.Defs.{Stream}
use go_wirenet.Session.State.{Session, new_session, register_stream, close_stream, close_streams}
use go_wirenet.Session.Shutdown.{Round, wait_streams}

-- The counter is the number of registered streams.
pub record Counts (s : Session) : Type 0 where
  pub is_map : IsMap s.streams
  pub counted : s.active_streams ≡ length s.streams

-- Registering a stream with a new id keeps the count.
pub register_stream-Counts :
    (t : Stream) (s : Session)
    → lookup t.id s.streams ≡ none
    → Counts s
    → Counts (register_stream t s)
unfolding register_stream insert
register_stream-Counts t s new h = record {
  is_map = insert-IsMap t.id t s.streams h.is_map;
  counted = omega (arith, h.counted, ap length (remove_missing t.id s.streams new));
}

-- Closing a registered stream once keeps the count.
pub close_stream-Counts :
    (t u : Stream) (s : Session)
    → lookup t.id s.streams ≡ some u
    → Counts s
    → Counts (close_stream t s).1
unfolding close_stream
close_stream-Counts t u s there h =
    let fewer : suc (length (remove t.id s.streams)) ≡ length s.streams =
      length-remove t.id s.streams h.is_map there in
    record { is_map = remove-IsMap t.id s.streams h.is_map; counted = ground (arith, h.counted) }

-- A stream that opens, or one that is closed.
pub data StreamEvent : Type 0 where
  opened : Stream → StreamEvent
  ended : Stream → StreamEvent

unfoldable pub happen : List StreamEvent → Session → Session
unfolding register_stream close_stream
happen [] s = s
happen (opened t ∷ es) s = happen es (register_stream t s)
happen (ended t ∷ es) s = happen es (close_stream t s).1

-- A stream opens under a new id, and is closed while it is registered.
abbrev pub AreOnce : List StreamEvent → Session → Type 0
AreOnce [] s = Unit
AreOnce (opened t ∷ es) s = (lookup t.id s.streams ≡ none) × AreOnce es (register_stream t s)
AreOnce (ended t ∷ es) s = (lookup t.id s.streams ≡ some t) × AreOnce es (close_stream t s).1

kept : (es : List StreamEvent) (s : Session) → AreOnce es s → Counts s → Counts (happen es s)
unfolding happen
kept [] s once h = h
kept (opened t ∷ es) s once h =
    kept es (register_stream t s) once.1 (register_stream-Counts t s once.0 h)
kept (ended t ∷ es) s once h =
    kept es (close_stream t s).1 once.1 (close_stream-Counts t t s once.0 h)

new_session-Counts : (sid id : Bytes) (names : List Bytes) → Counts (new_session sid id names)
unfolding new_session
new_session-Counts sid id names = record { is_map = tt; counted = refl }

-- From a new session on, and over any streams that open under new ids and are closed once each, the
-- counter is the number of streams in the map, and the map has each once.
pub happen-Counts :
    (es : List StreamEvent) (sid id : Bytes) (names : List Bytes)
    → AreOnce es (new_session sid id names)
    → Counts (happen es (new_session sid id names))
happen-Counts es sid id names once =
    kept es (new_session sid id names) once (new_session-Counts sid id names)

-- Closing a stream that is not registered any more takes another stream off the count: the counter
-- falls short of the streams that are open.
pub close_stream_again :
    (t : Stream) (s : Session)
    → Counts s
    → lookup t.id s.streams ≡ none
    → 0 < length s.streams
    → let s' = (close_stream t s).1 in
      (s'.streams ≡ s.streams) × (s'.active_streams + 1 ≡ length s'.streams)
unfolding close_stream
close_stream_again t s h gone others =
    let same : remove t.id s.streams ≡ s.streams = remove_missing t.id s.streams gone in
    (same, ground (arith, h.counted, ap length same))

-- The session behind the Close of each of these streams.
abbrev pub all_closed : Assoc Stream → Session → Session
all_closed [] s = s
all_closed ((k, t) ∷ rest) s = all_closed rest (close_stream t s).1

pub active-all_closed :
    (m : Assoc Stream) (s : Session) → (all_closed m s).active_streams ≡ s.active_streams - length m
active-all_closed [] s = omega arith
active-all_closed ((k, t) ∷ rest) s =
    active-all_closed rest (close_stream t s).1 ∙ unfold close_stream in ground arith

closed-all_closed : (m : Assoc Stream) (s : Session) → (all_closed m s).closed ≡ s.closed
closed-all_closed [] s = refl
closed-all_closed ((k, t) ∷ rest) s =
    closed-all_closed rest (close_stream t s).1 ∙ unfold close_stream in refl

-- The loop over the streams, where no transfer runs.
close_streams-free :
    (m : Assoc Stream) (s : Session) → close_streams (λ _. false) m s ≡ (ok tt, all_closed m s)
unfolding close_streams
close_streams-free [] s = refl
close_streams-free ((k, t) ∷ rest) s = close_streams-free rest (close_stream t s).1

-- A round in which the other goroutines rest and no transfer runs, after the deadline.
abbrev pub overdue : Round
overdue = record { others = λ s. s; expired = true; held = λ _. false }

-- A round past the deadline, with streams left.
overdue_round :
    (s : Session) (rest : List Round)
    → (s.active_streams == 0) ≡ false
    → wait_streams (overdue ∷ rest) s ≡ wait_streams rest (all_closed s.streams s)
unfolding wait_streams
overdue_round s rest busy = rw busy (
    ap (λ (g : Go (Unit {0}) × Session). continue g.0 (λ _. wait_streams rest) g.1)
      (close_streams-free s.streams s))

-- The wait past the deadline, which leaves the session's flag.
pub wait_streams-closed :
    (s : Session) (rest : List Round)
    → s.active_streams ≤ length s.streams
    → (s' : Session) × (wait_streams (overdue ∷ overdue ∷ rest) s ≡ (ok tt, s'))
      × (s'.active_streams ≡ 0)
      × (s'.closed ≡ s.closed)
unfolding wait_streams
wait_streams-closed s rest h = elim (Bool-cases (s.active_streams == 0)) [
  | inl idle ↦ (s, ground arith, ground arith, refl)
  | inr busy ↦
      let s' : Session = all_closed s.streams s in
      let none_left : s'.active_streams ≡ 0 = omega (arith, active-all_closed s.streams s) in
      (
        s',
        overdue_round s (overdue ∷ rest) busy ∙ rw none_left refl,
        none_left,
        closed-all_closed s.streams s,
      )
]

-- Every stream is kept under its own id.
abbrev pub IsKeyed : Assoc Stream → Type 0
IsKeyed [] = Unit
IsKeyed ((k, t) ∷ m) = (k ≡ t.id) × IsKeyed m

remove_first :
    (k : Bytes) (t : Stream) (rest : Assoc Stream)
    → k ≡ t.id
    → lookup k rest ≡ none
    → remove t.id ((k, t) ∷ rest) ≡ rest
unfolding remove
remove_first k t rest key fresh =
    ground (arith, same_bytes_iff k t.id, remove_missing t.id rest, key)

-- Once each stream of the map is closed, the map is empty.
all_closed-empty :
    (m : Assoc Stream) (s : Session)
    → IsMap m
    → IsKeyed m
    → s.streams ≡ m
    → (all_closed m s).streams ≡ []
all_closed-empty [] s im ik there = there
all_closed-empty ((k, t) ∷ rest) s im ik there =
    all_closed-empty rest (close_stream t s).1 im.1 ik.1
      (unfold close_stream in ap (remove t.id) there ∙ remove_first k t rest ik.0 im.0)

no_streams : (m : Assoc Stream) → length m ≡ 0 → m ≡ []
no_streams [] h = refl
no_streams (x ∷ m) h = cc

-- The wait past the deadline ends with no stream in the map, where the counter counts them.
pub wait_streams-empty :
    (s : Session)
    → Counts s
    → IsKeyed s.streams
    → (s' : Session) × (wait_streams (overdue ∷ overdue ∷ []) s ≡ (ok tt, s'))
      × (s'.active_streams ≡ 0)
      × (s'.streams ≡ [])
      × (s'.closed ≡ s.closed)
unfolding wait_streams
wait_streams-empty s h keyed = elim (Bool-cases (s.active_streams == 0)) [
  | inl idle ↦
      (s, ground arith, ground arith, no_streams s.streams (ground (arith, h.counted)), refl)
  | inr busy ↦
      let s' : Session = all_closed s.streams s in
      let none_left : s'.active_streams ≡ 0 =
        omega (arith, h.counted, active-all_closed s.streams s) in
      (
        s',
        overdue_round s (overdue ∷ []) busy ∙ rw none_left refl,
        none_left,
        all_closed-empty s.streams s h.is_map keyed refl,
        closed-all_closed s.streams s,
      )
]

-- Past the deadline the wait ends: one round that closes every stream brings the counter to 0, if
-- it is not above the number of streams, and the next round sees it.
pub wait_streams-overdue :
    (s : Session) (rest : List Round)
    → s.active_streams ≤ length s.streams
    → (s' : Session) × (wait_streams (overdue ∷ overdue ∷ rest) s ≡ (ok tt, s'))
      × (s'.active_streams ≡ 0)
wait_streams-overdue s rest h =
    let (s', ran, idle, _) = wait_streams-closed s rest h in (s', ran, idle)
