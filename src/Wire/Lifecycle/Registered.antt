-- ===== src/Wire/Lifecycle/Registered.antt =====
-- Which sessions a wire still has once a call of its `Close` has returned.
use go_wirenet.Base.{
  ℕ, ◌≡◌, refl, Bool, true, false, not, ◌||◌, ◌&&◌, Option, none, some, List, [], ◌∷◌, Bytes, arith,
  same_bytes, same_bytes_iff, if◌then◌else◌,
}
use go_wirenet.Base.Assoc.{Assoc, lookup, remove, insert, lookup-remove, lookup-insert}
use go_wirenet.Go.{Error}
use go_wirenet.Wire.State.{Peer, Wire}
use go_wirenet.Wire.Registry.{register_session, unregister_session, set_conn_flag}
use go_wirenet.Wire.Close.{CloseError, after_close, note_error}
use go_wirenet.Errors.Defs.{ShutdownError}
use go_wirenet.Wire.Closing.{IsKeyed}
use go_wirenet.Wire.Lifecycle.{
  returned, Server, listening, taken, closing, replying, ended, hanging, System, Step,
  find_unconnected, close_early, find_connected, refuse, check, mark, send, snapshot, close_next,
  close_conn, answer, accept, accept_fails, finish, drop, greet, no_mux, not_shaken, start,
  register, leave, leave_last, hang_up, find_shut, close_too, Reach, here, next, init, Acceptor,
  values, noted, hangs,
}
use go_wirenet.Wire.Lifecycle.Invariant.{Reach-Inv}

abbrev pub contains : Bytes → List Bytes → Bool
contains k [] = false
contains k (j ∷ js) = same_bytes j k || contains k js

abbrev is_there : Option Peer → Bool
is_there none = false
is_there (some _) = true

-- Whether a session is registered under the id.
abbrev pub has : Bytes → Assoc Peer → Bool
has k m = is_there (lookup k m)

-- Whether a session of the list has the id.
abbrev is_left : Bytes → List Peer → Bool
is_left k [] = false
is_left k (p ∷ ps) = same_bytes p.id k || is_left k ps

-- What the goroutine has still to do for the id: nothing to be said before it copied the sessions.
abbrev is_due : Bytes → Server → Bool
is_due k listening = true
is_due k (taken i) = true
is_due k (hanging i) = true
is_due k (closing i rest acc) = is_left k rest
is_due k (replying i acc) = false
is_due k (ended i) = false

-- Whether each id of the map is one of these, or one of those.
abbrev pub all_among : List Bytes → List Bytes → Assoc Peer → Bool
all_among these those [] = true
all_among these those ((k, p) ∷ m) =
    (contains k these || contains k those) && all_among these those m

all_among-has :
    (these those : List Bytes) (m : Assoc Peer)
    → ((k : Bytes) → has k m ≡ true → (contains k these || contains k those) ≡ true)
    → all_among these those m ≡ true
unfolding lookup
all_among-has these those [] h = refl
all_among-has these those ((j, p) ∷ m) h =
    ground
      (arith, all_among-has these those m (λ k there. h k (ground arith)), h j, same_bytes_iff j j)

-- Each registered session is due, or came late, or answered ErrSessionClosed.
record Kept {H : Type 0} (s : System H) : Type 0 where
  keyed : IsKeyed s.wire.sessions
  known :
      (k : Bytes)
      → has k s.wire.sessions ≡ true
      → (contains k s.late || (contains k s.already || is_due k s.server)) ≡ true

remove-IsKeyed : (k : Bytes) (m : Assoc Peer) → IsKeyed m → IsKeyed (remove k m)
unfolding remove
remove-IsKeyed k [] h = h
remove-IsKeyed k ((j, p) ∷ m) h = ground (arith, remove-IsKeyed k m h.1)

insert-IsKeyed : (p : Peer) (m : Assoc Peer) → IsKeyed m → IsKeyed (insert p.id p m)
unfolding insert
insert-IsKeyed p m h = (refl, remove-IsKeyed p.id m h)

has-remove : (k j : Bytes) (m : Assoc Peer) → has j (remove k m) ≡ (not (same_bytes k j) && has j m)
has-remove k j m = ground (arith, lookup-remove k j m)

is_left-values :
    (k : Bytes) (m : Assoc Peer) → IsKeyed m → has k m ≡ true → is_left k (values m) ≡ true
unfolding lookup
is_left-values k [] h there = there
is_left-values k ((j, p) ∷ m) h there = ground (arith, is_left-values k m h.1, h.0)

module _ {H : Type 0} where
  sessions-unregister_session :
      (p : Peer) (w : Wire H) → (unregister_session p w).0.sessions ≡ remove p.id w.sessions
  unfolding unregister_session
  sessions-unregister_session p w = refl

  after_close-IsKeyed :
      (e : Option Error) (p : Peer) (w : Wire H)
      → IsKeyed w.sessions
      → IsKeyed (after_close e p w).sessions
  unfolding after_close unregister_session
  after_close-IsKeyed none p w h = remove-IsKeyed p.id w.sessions h
  after_close-IsKeyed (some e) p w h = ground (arith, remove-IsKeyed p.id w.sessions h)

  -- A session that is registered after a `Close` was so before, and is not the one that was closed,
  -- but where that one answered ErrSessionClosed.
  has-after_close :
      (e : Option Error) (p : Peer) (w : Wire H) (ids : List Bytes) (k : Bytes)
      → has k (after_close e p w).sessions ≡ true
      → (has k w.sessions ≡ true)
        × ((contains k (noted e p ids) || not (same_bytes p.id k)) ≡ true)
        × (contains k ids ≡ true → contains k (noted e p ids) ≡ true)
  unfolding after_close unregister_session
  has-after_close none p w ids k h = ground (arith, has-remove p.id k w.sessions)
  has-after_close (some e) p w ids k h = ground (arith, has-remove p.id k w.sessions)

  close_next-Kept :
      {s : System H} (i : ℕ) (p : Peer) (rest : List Peer) (acc : ShutdownError) (e : Option Error)
      → s.server ≡ closing i (p ∷ rest) acc
      → Kept s
      → Kept (record s {
        wire = after_close e p s.wire;
        server = if hangs e p s.wire then hanging i else closing i rest (note_error e acc);
        already = noted e p s.already;
      })
  close_next-Kept {s} i p rest acc e h inv = record {
    keyed = after_close-IsKeyed e p s.wire inv.keyed;
    known = λ k there.
        let (before, other, more) = has-after_close e p s.wire s.already k there in
        ground (arith, inv.known k before, other, more, h);
  }

  Step-Kept : {s t : System H} → Step s t → Kept s → Kept t
  unfolding register_session set_conn_flag unregister_session remove
  Step-Kept {s} (snapshot i h) inv = record {
    keyed = inv.keyed;
    known = λ k there. is_left-values k s.wire.sessions inv.keyed there;
  }
  Step-Kept (close_next i p rest acc e h) inv = close_next-Kept i p rest acc e h inv
  Step-Kept (close_conn i acc e h) inv = record {
    keyed = inv.keyed;
    known = λ k there. ground (arith, inv.known k there, h);
  }
  Step-Kept (answer i acc b h c) inv = record {
    keyed = inv.keyed;
    known = λ k there. ground (arith, inv.known k there, h);
  }
  Step-Kept (send i b h c) inv = record {
    keyed = inv.keyed;
    known = λ k there. ground (arith, inv.known k there, c);
  }
  Step-Kept {s} (register xs ys p h) inv = record {
    keyed = insert-IsKeyed p s.wire.sessions inv.keyed;
    known = λ k there. ground (arith, inv.known k, lookup-insert p.id k p s.wire.sessions, there);
  }
  Step-Kept {s} (leave p h) inv = record {
    keyed = remove-IsKeyed p.id s.wire.sessions inv.keyed;
    known = λ k there. ground (arith, inv.known k, has-remove p.id k s.wire.sessions, there);
  }
  Step-Kept {s} (leave_last i p h c) inv = record {
    keyed = remove-IsKeyed p.id s.wire.sessions inv.keyed;
    known = λ k there. ground (arith, inv.known k, has-remove p.id k s.wire.sessions, there);
  }
  Step-Kept (find_unconnected i h c) inv = record { keyed = inv.keyed; known = inv.known }
  Step-Kept (close_early i h) inv = record { keyed = inv.keyed; known = inv.known }
  Step-Kept (find_connected i h c) inv = record { keyed = inv.keyed; known = inv.known }
  Step-Kept (refuse i h c) inv = record { keyed = inv.keyed; known = inv.known }
  Step-Kept (check i h c) inv = record { keyed = inv.keyed; known = inv.known }
  Step-Kept (mark i h) inv = record { keyed = inv.keyed; known = inv.known }
  Step-Kept (accept h c) inv = record { keyed = inv.keyed; known = inv.known }
  Step-Kept (accept_fails e h) inv = record { keyed = inv.keyed; known = inv.known }
  Step-Kept (finish e h) inv = record { keyed = inv.keyed; known = inv.known }
  Step-Kept (drop h c) inv = record { keyed = inv.keyed; known = inv.known }
  Step-Kept (hang_up e h) inv = record { keyed = inv.keyed; known = inv.known }
  Step-Kept (find_shut i h c) inv = record { keyed = inv.keyed; known = inv.known }
  Step-Kept (close_too i h c) inv = record { keyed = inv.keyed; known = inv.known }
  Step-Kept (greet h c) inv = record { keyed = inv.keyed; known = inv.known }
  Step-Kept (no_mux e h) inv = record { keyed = inv.keyed; known = inv.known }
  Step-Kept (not_shaken h) inv = record { keyed = inv.keyed; known = inv.known }
  Step-Kept (start p h) inv = record { keyed = inv.keyed; known = inv.known }

module _ {H : Type 0} (w : Wire H) (a : Acceptor) (ps : List Peer)
    (keyed : IsKeyed w.sessions) where
  Reach-Kept : {s : System H} → Reach (init w a ps) s → Kept s
  unfolding set_conn_flag
  Reach-Kept here = record { keyed = keyed; known = λ k there. ground arith }
  Reach-Kept (next r st) = Step-Kept st (Reach-Kept r)

  -- Once a call that met the goroutine of shutdown has returned, the listener or the connection is
  -- closed, the wire is closed if the call is one of `Close`, and every session that is still
  -- registered came after the goroutine had copied the sessions, or answered it that it had been
  -- closed before; whatever else goes on.
  pub returned-Closes :
      {s : System H} (i : ℕ) (b : Bool) (e : Option CloseError)
      → Reach (init w a ps) s
      → s.calls i ≡ returned b e
      → (s.conn_closed ≡ true)
        × ((not b || s.wire.closed) ≡ true)
        × (all_among s.late s.already s.wire.sessions ≡ true)
  returned-Closes {s} i b e r h =
      let inv = Reach-Inv w a ps i r in
      let kept = Reach-Kept r in
      (
        ground (arith, inv.answered, inv.hangs_up, h),
        ground (arith, inv.flagged, h),
        all_among-has s.late s.already s.wire.sessions
            (λ k there. ground (arith, inv.answered, inv.owner, kept.known k there, h)),
      )
