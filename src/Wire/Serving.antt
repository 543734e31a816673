-- ===== src/Wire/Serving.antt =====
-- Which clients a server takes, and when its Connect returns.
use go_wirenet.Base.{
  ◌≡◌, refl, sym, ◌∙◌, ap, Bool, true, false, Option, none, some, List, [], ◌∷◌, ◌++◌, append_assoc,
  append-nil, map, arith, if◌then◌else◌,
}
use go_wirenet.Go.{Error, ok, err, panic, stuck, Ensures}
use go_wirenet.Wire.State.{Peer, Wire}
use go_wirenet.Wire.Registry.{set_conn_flag}
use go_wirenet.Wire.Close.{close_wire, already_closed}
use go_wirenet.Wire.Server.{
  Confirmed, Incoming, not_accepted, shaken, Arrival, new_peer, closed_by, after_handshake,
  accept_loop, accept_server, finish,
}

-- The sessions of the handshakes that succeeded.
abbrev pub confirmed : List Confirmed → List Peer
confirmed [] = []
confirmed (ok c ∷ cs) = new_peer c ∷ confirmed cs
confirmed (_ ∷ cs) = confirmed cs

abbrev pub client : Confirmed → Arrival
client c = record { closes = false; incoming = shaken c }

abbrev pub AllEnd : List Confirmed → Type 0
AllEnd [] = Unit
AllEnd (c ∷ cs) = Ensures (λ _. Unit) c × AllEnd cs

one_client :
    {H : Type 0} (c : Confirmed) (rest : List Arrival) (opened : List Peer) (w : Wire H)
    → w.closed ≡ false
    → accept_loop (client c ∷ rest) opened w
      ≡ after_handshake (λ ps. accept_loop rest ps w) c opened w
unfolding accept_loop
one_client c rest opened w is_open = ground arith

accept_loop_clients :
    {H : Type 0} (cs : List Confirmed) (rest : List Arrival) (opened : List Peer) (w : Wire H)
    → w.closed ≡ false
    → AllEnd cs
    → accept_loop (map client cs ++ rest) opened w ≡ accept_loop rest (opened ++ confirmed cs) w
accept_loop_clients [] rest opened w is_open go =
    ap (λ ps. accept_loop rest ps w) (sym (append-nil opened))
accept_loop_clients (ok c ∷ cs) rest opened w is_open go =
    one_client (ok c) (map client cs ++ rest) opened w is_open
    ∙ accept_loop_clients cs rest (opened ++ new_peer c ∷ []) w is_open go.1
    ∙ ap (λ ps. accept_loop rest ps w) (append_assoc opened (new_peer c ∷ []) (confirmed cs))
accept_loop_clients (err e ∷ cs) rest opened w is_open go =
    one_client (err e) (map client cs ++ rest) opened w is_open
    ∙ accept_loop_clients cs rest opened w is_open go.1
accept_loop_clients (panic ∷ cs) rest opened w is_open go = absurd go.0
accept_loop_clients (stuck ∷ cs) rest opened w is_open go = absurd go.0

last_round :
    {H : Type 0} (flag : Bool) (e : Error) (rest : List Arrival) (opened : List Peer) (w : Wire H)
    → w.closed ≡ false
    → accept_loop (record { closes = flag; incoming = not_accepted e } ∷ rest) opened w
      ≡ (ok (if flag then none else some e), opened, closed_by flag w)
unfolding accept_loop
last_round true e rest opened w is_open = refl
last_round false e rest opened w is_open = ground arith

-- A server whose wire is open opens a session for each client whose handshake succeeds, in order, and
-- goes on after one that fails, until Accept fails; then its Connect returns that error, or none if
-- the wire has been closed by then, with the connection flag down.
pub accept_server_serves :
    {H : Type 0} (cs : List Confirmed) (flag : Bool) (e : Error) (rest : List Arrival) (w : Wire H)
    → w.closed ≡ false
    → AllEnd cs
    → accept_server none
        (map client cs ++ record { closes = flag; incoming = not_accepted e } ∷ rest)
        w
      ≡ (
        ok (if flag then none else some e),
        confirmed cs,
        record (closed_by flag w) { conn = false },
      )
unfolding accept_server set_conn_flag
accept_server_serves cs flag e rest w is_open go =
    let w1 : Wire _ = record w { conn = true } in
    let last : List Arrival = record { closes = flag; incoming = not_accepted e } ∷ rest in
    ap finish (
      accept_loop_clients cs last [] w1 is_open go
      ∙ last_round flag e rest (confirmed cs) w1 is_open)
    ∙ elim flag
        as (λ b. finish (ok (if b then none else some e), confirmed cs, closed_by b w1) ≡ (
          ok (if b then none else some e),
          confirmed cs,
          record (closed_by b w) { conn = false },
        )) [ true ↦ refl | false ↦ refl ]

abbrev pub is_connection : Incoming → Bool
is_connection (not_accepted e) = false
is_connection _ = true

-- Every round brings a connection.
abbrev pub AreConnections : List Arrival → Type 0
AreConnections [] = Unit
AreConnections (a ∷ rest) = (is_connection a.incoming ≡ true) × AreConnections rest

closed_round :
    {H : Type 0} (a : Arrival) (rest : List Arrival) (w : Wire H)
    → is_connection a.incoming ≡ true
    → w.closed ≡ true
    → accept_loop (a ∷ rest) [] w ≡ accept_loop rest [] (closed_by a.closes w)
unfolding accept_loop
closed_round a rest w conn shut = ground arith

accept_loop_closed :
    {H : Type 0} (rounds : List Arrival) (w : Wire H)
    → AreConnections rounds
    → w.closed ≡ true
    → (w' : Wire H) × (accept_loop rounds [] w ≡ (stuck, [], w'))
      × (w'.closed ≡ true)
      × (w'.conn ≡ w.conn)
unfolding accept_loop
accept_loop_closed [] w conns shut = (w, refl, shut, refl)
accept_loop_closed (a ∷ rest) w conns shut =
    let (w', ran, still, same) =
      accept_loop_closed rest (closed_by a.closes w) conns.1 (ground arith) in
    (w', closed_round a rest w conns.0 shut ∙ ran, still, ground arith)

-- A wire that was closed before its Connect: the server listens all the same, opens no session
-- however many connections come, and does not return; and then Close answers ErrWireClosed and
-- leaves it running.
pub accept_server_closed :
    {H : Type 0} (rounds : List Arrival) (answer : Peer → Option Error) (conn_close : Option Error)
    (w : Wire H)
    → AreConnections rounds
    → w.closed ≡ true
    → (w' : Wire H) × (accept_server none rounds w ≡ (stuck, [], w'))
      × (close_wire answer conn_close w' ≡ (some already_closed, w'))
unfolding accept_server set_conn_flag close_wire
accept_server_closed rounds answer conn_close w conns shut =
    let (w', ran, still, up) = accept_loop_closed rounds (record w { conn = true }) conns shut in
    (w', ap finish ran, ground arith)
