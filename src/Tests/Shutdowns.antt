-- ===== src/Tests/Shutdowns.antt =====
-- The end of a concrete wire.
use go_wirenet.Base.{
  ℕ, ◌≡◌, refl, false, true, not, ◌||◌, none, some, [], ◌∷◌, inl, arith, same_bytes,
}
use go_wirenet.Go.{eof}
use go_wirenet.Errors.Defs.{new_shutdown_error, add, is_filled}
use go_wirenet.Base.Assoc.{insert, remove}
use go_wirenet.Wire.State.{Wire, client_side, is_client_side}
use go_wirenet.Wire.Close.{shutdown_failed, after_close, note_error}
use go_wirenet.Wire.Registry.{register_session, unregister_session, set_conn_flag}
use go_wirenet.Wire.Lifecycle.{
  connected, found_open, sending, sent, returned, taken, closing, replying, ended, stopped, System,
  find_connected, check, mark, send, snapshot, close_next, close_conn, answer, register, Reach,
  here, next, init, set_call,
}
use go_wirenet.Wire.Lifecycle.Answers.{one_shutdown, leaving_session_blocks}
use go_wirenet.Wire.Lifecycle.Registered.{returned-Closes, all_among}
use go_wirenet.Wire.Lifecycle.Progress.{CanReturn, close_wire-CanReturn}
use go_wirenet.Tests.Wires.{a_wire, peer}

abbrev U : Type 0
U = Unit {0}

abbrev idle_wire : Wire U
idle_wire = a_wire false false 0 []

abbrev client : Wire U
client = record idle_wire { role = client_side }

abbrev begun : System U
begun = init client (stopped none) (peer 1 ∷ [])

abbrev joined : System U
joined = record begun {
  wire = register_session (peer 1) begun.wire;
  pending = [];
  late = (peer 1).id ∷ [];
}

abbrev flagged : System U
flagged = set_call 0 (sending true) (record (set_call 0 found_open (set_call 0 connected joined)) {
  wire = record joined.wire { closed = true };
})

abbrev met : System U
met = set_call 0 (sent true) (record flagged { server = taken 0 })

abbrev copied : System U
copied = record met { server = closing 0 (peer 1 ∷ []) new_shutdown_error; late = []; already = [] }

abbrev closed_one : System U
closed_one = record copied {
  wire = (unregister_session (peer 1) copied.wire).0;
  server = closing 0 [] new_shutdown_error;
}

abbrev hung_up : System U
hung_up = record closed_one {
  server = replying 0 (record { errors = eof ∷ [] });
  conn_closed = true;
}

abbrev gone : System U
gone =
    set_call 0 (returned true (some (shutdown_failed (record { errors = eof ∷ [] }))))
      (record hung_up { server = ended 0 })

to_flagged : Reach begun flagged
unfolding register_session set_conn_flag
to_flagged =
    next
      (next (next (next here (register [] [] (peer 1) refl)) (find_connected 0 refl refl))
        (check 0 refl refl))
      (mark 0 refl)

to_copied : Reach begun copied
unfolding register_session set_conn_flag insert remove
to_copied = next (next to_flagged (send 0 true refl refl)) (snapshot 0 refl)

to_gone : Reach begun gone
unfolding unregister_session is_client_side after_close note_error add is_filled set_conn_flag
    register_session remove insert same_bytes
to_gone =
    next
      (next (next to_copied (close_next 0 (peer 1) [] new_shutdown_error none refl))
        (close_conn 0 new_shutdown_error (some eof) refl))
      (answer 0 (record { errors = eof ∷ [] }) true refl refl)

returned-Closes_example :
    (gone.conn_closed ≡ true)
    × ((not true || gone.wire.closed) ≡ true)
    × (all_among gone.late gone.already gone.wire.sessions ≡ true)
returned-Closes_example =
    returned-Closes client (stopped none) (peer 1 ∷ []) tt 0 true
      (some (shutdown_failed (record { errors = eof ∷ [] }))) to_gone refl

one_call : ◌≡◌ {A = ℕ} 0 0
one_call = one_shutdown client (stopped none) (peer 1 ∷ []) to_gone 0 0 refl refl

can_return : CanReturn flagged 0
can_return =
    close_wire-CanReturn client (stopped none) (peer 1 ∷ []) to_flagged 0 refl (inl (refl, refl))

leaving_session_blocks_example :
    (s : System U) × Reach begun s
    × (s.calls 0 ≡ returned false none)
    × (s.calls 1 ≡ sending true)
    × ((t : System U) → Reach s t → t.calls 1 ≡ sending true)
leaving_session_blocks_example =
    leaving_session_blocks client (peer 1) 0 1 (omega arith) refl refl refl
