-- ===== src/Wire/Connect.antt =====
-- Connect (wirenet.go).
use go_wirenet.Base.{none, Option, List}
use go_wirenet.Go.{Error, Go}
use go_wirenet.Wire.State.{Wire, client_side, server_side}
use go_wirenet.Wire.Client.{Round, accept_client}
use go_wirenet.Wire.Backoff.{Floats}
use go_wirenet.Wire.Server.{Arrival, accept_server}

-- What the network does: the rounds of a client, or the listener's error and the rounds of a server.
unfoldable pub connect :
    Floats
    → {H : Type 0} → List Round
    → Option Error
    → List Arrival
    → Wire H
    → Go (Option Error) × Wire H
unfolding accept_client accept_server
connect fl dials listen arrivals w = elim w.role [
  | client_side ↦ accept_client fl dials none w
  | server_side ↦ let (g, _, w') = accept_server listen arrivals w in (g, w')
]
