-- ===== src/Tests/Openings.antt =====
-- A session's goroutine over some rounds, and Connect on both sides.
use go_wirenet.Base.{ℕ, ◌≡◌, refl, true, false, none, some, [], ◌∷◌, text}
use go_wirenet.Base.Assoc.{lookup}
use go_wirenet.Go.{ok, eof}
use go_wirenet.Wire.State.{Wire, client_side, server_side, role_text}
use go_wirenet.Wire.Registry.{sessions, register_session, unregister_session}
use go_wirenet.Wire.Client.{accept_client, served}
use go_wirenet.Wire.Server.{accept_server}
use go_wirenet.Wire.Connect.{connect}
use go_wirenet.Tests.Hazards.{numbers}
use go_wirenet.Session.State.{Session}
use go_wirenet.Session.Counting.{overdue}
use go_wirenet.Session.Open.{Offer, open_session_loop}
use go_wirenet.Session.Opening.{open_session_loop_serves}
use go_wirenet.Tests.Wires.{a_wire, peer}
use go_wirenet.Tests.Sessions.{busy, busy-Counts}

abbrev quiet : Session → Session
quiet s = s

abbrev fails : Offer ℕ
fails = record { others = quiet; wire_closed = true; conn = none }

abbrev idle_wire : Wire (Unit {0})
idle_wire = a_wire false false 0 []

-- Two streams before the wire is closed, and one after.
open_session_loop_serves_example :
    let there = register_session (peer 3) idle_wire in
    let (w', was_last) = unregister_session (peer 3) there in
    (s' : Session) × (open_session_loop
        (λ w. w)
        (record { others = quiet; wire_closed = false; conn = some 1 }
          ∷ record { others = quiet; wire_closed = false; conn = some 2 }
          ∷ record { others = quiet; wire_closed = true; conn = some 3 }
          ∷ fails
          ∷ [])
        (overdue ∷ overdue ∷ [])
        false
        (some eof)
        (peer 3)
        busy
        idle_wire
      ≡ ((ok (some eof, was_last), s', w'), 1 ∷ 2 ∷ []))
    × (s'.closed ≡ true)
    × (s'.active_streams ≡ 0)
    × (s'.streams ≡ [])
    × (lookup (peer 3).id w'.sessions ≡ none)
open_session_loop_serves_example =
    open_session_loop_serves (λ w. w) (some eof) (peer 3)
      ((quiet, false, 1) ∷ (quiet, false, 2) ∷ []) ((quiet, true, 3) ∷ []) fails false busy
      idle_wire (refl, (refl, tt)) (refl, tt) refl refl busy-Counts (refl, (refl, tt))

-- A server whose listener cannot listen.
connect_server : (connect numbers [] (some eof) [] idle_wire).0 ≡ ok (some eof)
unfolding connect accept_server
connect_server = refl

-- A client that is served once, and closed before its next dial.
connect_client :
    let w = record idle_wire { role = client_side } in
    (connect numbers
      (record { closes = false; closes_dialing = false; dial = served }
        ∷ record { closes = true; closes_dialing = false; dial = served }
        ∷ [])
      none
      []
      w).0
    ≡ ok none
unfolding connect accept_client
connect_client = refl

role_text_server : role_text server_side ≡ text "server side"
unfolding role_text
role_text_server = refl

sessions_none : sessions idle_wire ≡ []
unfolding sessions
sessions_none = refl
