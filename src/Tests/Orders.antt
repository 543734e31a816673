-- ===== src/Tests/Orders.antt =====
-- Two orders of the same sessions.
use go_wirenet.Base.{◌≡◌, refl, true, some, [], ◌∷◌}
use mathlib.Core.List.{Perm}
use mathlib.Core.List.Permᴰ.{swap}
use go_wirenet.Base.Assoc.{Assoc}
use go_wirenet.Go.{eof}
use go_wirenet.Errors.Defs.{new_shutdown_error}
use go_wirenet.Wire.State.{Peer, Wire}
use go_wirenet.Wire.Close.{close_sessions}
use go_wirenet.Wire.Order.{close_sessions_any_order}
use go_wirenet.Tests.Wires.{a_wire, peer}

abbrev one_way : Assoc Peer
one_way = (1 ∷ [], peer 1) ∷ (2 ∷ [], peer 2) ∷ []

abbrev other_way : Assoc Peer
other_way = (2 ∷ [], peer 2) ∷ (1 ∷ [], peer 1) ∷ []

abbrev a_hub : Wire (Unit {0})
a_hub = a_wire true true 0 one_way

close_sessions_any_order_example :
    ((close_sessions (λ p. some eof) one_way new_shutdown_error a_hub).1
      ≡ (close_sessions (λ p. some eof) other_way new_shutdown_error a_hub).1)
    × Perm
        (close_sessions (λ p. some eof) one_way new_shutdown_error a_hub).0.errors
        (close_sessions (λ p. some eof) other_way new_shutdown_error a_hub).0.errors
close_sessions_any_order_example =
    close_sessions_any_order (λ p. some eof) one_way other_way new_shutdown_error a_hub
      (swap refl refl)
