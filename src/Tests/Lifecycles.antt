-- ===== src/Tests/Lifecycles.antt =====
-- The end of a concrete session.
use go_wirenet.Base.{ℕ, ◌≡◌, ◌≢◌, refl, false, true, none, []}
use go_wirenet.Session.State.{new_session}
use go_wirenet.Session.Lifecycle.{
  checked, marked, sent, answered, returned, draining, closing, replying, ended, System, check,
  mark, send, drained, close_conn, answer, unregister, Reach, here, next, init, set_call,
}
use go_wirenet.Session.Lifecycle.Answers.{returned-closed, racing_close_waits}

abbrev start : System
start = init [] [] []

abbrev found_open : System
found_open = set_call 0 checked start

abbrev flagged : System
flagged = set_call 0 marked (record found_open { sess = record found_open.sess { closed = true } })

abbrev taken : System
taken = set_call 0 sent (record flagged { server = draining 0 })

abbrev waited : System
waited = record taken { server = closing 0; cancelled = true }

abbrev hung_up : System
hung_up = record waited { server = replying 0 none; conn_closed = true }

abbrev told : System
told = set_call 0 (answered none) (record hung_up { server = ended 0 })

abbrev gone : System
gone = set_call 0 (returned none) (record told { registered = false })

to_flagged : Reach start flagged
unfolding new_session
to_flagged = next (next here (check 0 refl refl)) (mark 0 refl)

to_gone : Reach start gone
unfolding new_session
to_gone =
    let to_waited : Reach start waited =
      next (next to_flagged (send 0 refl refl)) (drained 0 refl refl) in
    let to_told : Reach start told =
      next (next to_waited (close_conn 0 none refl)) (answer 0 none refl refl) in
    next to_told (unregister 0 none refl)

returned-closed_example :
    (gone.sess.closed ≡ true)
    × (gone.cancelled ≡ true)
    × (gone.conn_closed ≡ true)
    × (gone.registered ≡ false)
returned-closed_example = returned-closed [] [] [] to_gone 0 none refl

two_apart : ◌≢◌ {A = ℕ} 0 1
two_apart e = cc

racing_close_waits_example :
    (s : System) × Reach start s
    × (s.calls 0 ≡ returned none)
    × (s.calls 1 ≡ marked)
    × ((t : System) → Reach s t → t.calls 1 ≡ marked)
racing_close_waits_example = racing_close_waits [] [] [] 0 1 two_apart
