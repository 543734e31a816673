-- ===== src/Wire/Closing.antt =====
-- What Close leaves of a wire.
use go_wirenet.Base.{
  ◌≡◌, ◌≢◌, refl, sym, ap, List, ◌++◌, append_assoc, append-nil, ◌∙◌, true, false, Option, none,
  some, [], ◌∷◌, arith, Bytes, same_bytes_iff,
}
use go_wirenet.Base.Assoc.{Assoc, lookup, remove, IsMap, remove_missing}
use go_wirenet.Go.{Error, is_session_closed}
use go_wirenet.Errors.Defs.{ShutdownError, add, is_filled}
use go_wirenet.Wire.State.{Peer, Wire}
use go_wirenet.Wire.Registry.{unregister_session, set_conn_flag}
use go_wirenet.Wire.Close.{
  add_conn, CloseError, shutdown_failed, shutdown_result, close, shutdown, already_closed,
  close_sessions, after_close, note_error, close_wire,
}

-- Every session is kept under its own id.
abbrev pub IsKeyed : Assoc Peer → Type 0
IsKeyed [] = Unit
IsKeyed ((k, p) ∷ m) = (k ≡ p.id) × IsKeyed m

-- No session was closed before.
abbrev pub AllOpen : (Peer → Option Error) → Assoc Peer → Type 0
AllOpen answer [] = Unit
AllOpen answer ((k, p) ∷ m) = (answer p ≢ some Error.session_closed) × AllOpen answer m

remove_first :
    (k : Bytes) (p : Peer) (rest : Assoc Peer)
    → k ≡ p.id
    → lookup k rest ≡ none
    → remove p.id ((k, p) ∷ rest) ≡ rest
unfolding remove
remove_first k p rest key fresh =
    ground (arith, same_bytes_iff k p.id, remove_missing p.id rest, key)

not_session_closed : (e : Error) → some e ≢ some Error.session_closed → is_session_closed e ≡ false
not_session_closed Error.session_closed h = absurd (h refl)
not_session_closed _ h = refl

after_close-sessions :
    {H : Type 0} (e : Option Error) (k : Bytes) (p : Peer) (rest : Assoc Peer) (w : Wire H)
    → e ≢ some Error.session_closed
    → k ≡ p.id
    → lookup k rest ≡ none
    → w.sessions ≡ (k, p) ∷ rest
    → ((after_close e p w).sessions ≡ rest)
      × ((after_close e p w).closed ≡ w.closed)
      × ((after_close e p w).conn ≡ w.conn)
unfolding after_close unregister_session
after_close-sessions none k p rest w live key fresh here =
    (ap (remove p.id) here ∙ remove_first k p rest key fresh, refl, refl)
after_close-sessions (some e) k p rest w live key fresh here =
    rw (not_session_closed e live, after_close)
      (ap (remove p.id) here ∙ remove_first k p rest key fresh, refl, refl)

close_sessions-all :
    {H : Type 0} (answer : Peer → Option Error) (m : Assoc Peer) (acc : ShutdownError) (w : Wire H)
    → IsMap m
    → IsKeyed m
    → AllOpen answer m
    → w.sessions ≡ m
    → ((close_sessions answer m acc w).1.sessions ≡ [])
      × ((close_sessions answer m acc w).1.closed ≡ w.closed)
      × ((close_sessions answer m acc w).1.conn ≡ w.conn)
unfolding close_sessions
close_sessions-all answer [] acc w im ik live here = (here, refl, refl)
close_sessions-all answer ((k, p) ∷ rest) acc w im ik live here =
    let (left, flag, up) = after_close-sessions (answer p) k p rest w live.0 ik.0 im.0 here in
    let (gone, flag', up') =
      close_sessions-all answer rest (note_error (answer p) acc) (after_close (answer p) p w) im.1
        ik.1 live.1 left in
    (gone, flag' ∙ flag, up' ∙ up)

-- The errors that the sessions' Close returned, in order.
abbrev pub errors_of : (Peer → Option Error) → Assoc Peer → List Error
errors_of answer [] = []
errors_of answer ((k, p) ∷ m) = elim (answer p) [
  | none ↦ errors_of answer m
  | some e ↦ e ∷ errors_of answer m
]

abbrev pub listed : Option Error → List Error
listed none = []
listed (some e) = e ∷ []

-- What Close answers for these errors.
abbrev pub reported : List Error → Option CloseError
reported [] = none
reported es = some (shutdown_failed (record { errors = es }))

noted :
    (e : Option Error) (acc : ShutdownError)
    → e ≢ some Error.session_closed
    → (note_error e acc).errors ≡ acc.errors ++ listed e
unfolding note_error add
noted none acc live = sym (append-nil acc.errors)
noted (some e) acc live = rw (not_session_closed e live) refl

errors_of-first :
    (answer : Peer → Option Error) (k : Bytes) (p : Peer) (m : Assoc Peer)
    → errors_of answer ((k, p) ∷ m) ≡ listed (answer p) ++ errors_of answer m
errors_of-first answer k p m = ground arith

close_sessions-errors :
    {H : Type 0} (answer : Peer → Option Error) (m : Assoc Peer) (acc : ShutdownError) (w : Wire H)
    → AllOpen answer m
    → (close_sessions answer m acc w).0.errors ≡ acc.errors ++ errors_of answer m
unfolding close_sessions
close_sessions-errors answer [] acc w live = sym (append-nil acc.errors)
close_sessions-errors answer ((k, p) ∷ rest) acc w live =
    close_sessions-errors answer rest (note_error (answer p) acc) (after_close (answer p) p w)
      live.1
    ∙ ap (λ es. es ++ errors_of answer rest) (noted (answer p) acc live.0)
    ∙ append_assoc acc.errors (listed (answer p)) (errors_of answer rest)
    ∙ ap (◌++◌ acc.errors) (sym (errors_of-first answer k p rest))

conn_added :
    (e : Option Error) (acc : ShutdownError) → (add_conn e acc).errors ≡ acc.errors ++ listed e
unfolding add
conn_added none acc = sym (append-nil acc.errors)
conn_added (some e) acc = refl

shutdown_result-reported : (acc : ShutdownError) → shutdown_result acc ≡ reported acc.errors
unfolding is_filled
shutdown_result-reported acc = ground arith

close-reported :
    {H : Type 0} (answer : Peer → Option Error) (conn_close : Option Error) (w : Wire H)
    → AllOpen answer w.sessions
    → (close answer conn_close w).0 ≡ reported (errors_of answer w.sessions ++ listed conn_close)
unfolding close shutdown
close-reported answer conn_close w live =
    let acc : ShutdownError = (close_sessions answer w.sessions (record { errors = [] }) w).0 in
    shutdown_result-reported (add_conn conn_close acc)
    ∙ ap reported (
        conn_added conn_close acc
        ∙ ap (λ es. es ++ listed conn_close)
            (close_sessions-errors answer w.sessions (record { errors = [] }) w live))

closed_again :
    {H : Type 0} (answer : Peer → Option Error) (conn_close : Option Error) (w : Wire H)
    → w.closed ≡ true
    → close_wire answer conn_close (set_conn_flag false w) ≡ (none, set_conn_flag false w)
unfolding close_wire set_conn_flag
closed_again answer conn_close w is_closed =
    ap (λ b. (none, record w { conn = false; closed = b })) (sym is_closed)

-- Close of a connected wire closes every session and leaves the wire closed with no session, if each
-- session is kept once, under its id, and none was closed before; it answers with the errors of all
-- sessions and of the listener or connection, in order, or with none if there are none. A second
-- Close answers ErrWireClosed and changes nothing while the wire still counts as connected, and
-- answers no error once Connect has lowered that flag.
pub close_wire-all :
    {H : Type 0} (answer : Peer → Option Error) (conn_close : Option Error) (w : Wire H)
    → w.conn ≡ true
    → w.closed ≡ false
    → IsMap w.sessions
    → IsKeyed w.sessions
    → AllOpen answer w.sessions
    → let (e, w') = close_wire answer conn_close w in
      (e ≡ reported (errors_of answer w.sessions ++ listed conn_close))
      × (w'.sessions ≡ [])
      × (w'.closed ≡ true)
      × (close_wire answer conn_close w' ≡ (some already_closed, w'))
      × (close_wire answer conn_close (set_conn_flag false w') ≡ (none, set_conn_flag false w'))
unfolding close_wire set_conn_flag
close_wire-all {H} answer conn_close w up is_open im ik live =
    let (gone, flag, same) =
      close_sessions-all answer w.sessions (record { errors = [] }) (record w { closed = true }) im
        ik live refl in
    let w1 : Wire H = (close_wire answer conn_close w).1 in
    let done : w1.closed ≡ true = ground (arith, flag) in
    (
      ground (arith, close-reported answer conn_close (record w { closed = true }) live),
      ground (arith, gone),
      ground (arith, flag),
      ground (arith, flag, same),
      closed_again answer conn_close w1 done,
    )
