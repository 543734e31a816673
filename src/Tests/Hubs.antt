-- ===== src/Tests/Hubs.antt =====
-- A hub with concrete sessions.
use go_wirenet.Base.{
  ◌≡◌, ◌↔◌, refl, true, List, [], ◌∷◌, arith, Bytes, text, same_bytes, same_bytes_iff,
}
use go_wirenet.Base.Assoc.{lookup, remove, insert}
use go_wirenet.Go.{ok}
use go_wirenet.Wire.State.{Peer}
use go_wirenet.Wire.Registry.{
  find_session, session, index_names, register_session, unregister_session,
}
use go_wirenet.Wire.Index.{has_name}
use go_wirenet.Wire.Offers.{
  Change, register, unregister, run, AreTimely, AreApart, find_session_exact,
}
use go_wirenet.Tests.Wires.{empty_hub}

abbrev offering : Bytes → Bytes → Peer
offering id name = record { id = id; identification = []; stream_names = name ∷ [] }

abbrev cam : Peer
cam = offering (1 ∷ []) (text "cam")

abbrev mic : Peer
mic = offering (2 ∷ []) (text "mic")

-- Two sessions come, and the first leaves.
abbrev changes : List (Change (Unit {0}))
changes = register cam ∷ register mic ∷ unregister cam ∷ []

changes-AreTimely : AreTimely changes empty_hub
unfolding run lookup same_bytes register_session unregister_session insert remove
changes-AreTimely = (refl, (refl, (refl, tt)))

changes-AreApart : AreApart changes empty_hub
unfolding run lookup same_bytes register_session has_name insert remove index_names
changes-AreApart = (
  λ n h. refl,
  (λ n h. ground (arith, same_bytes_iff (text "mic") n, same_bytes_iff (text "cam") n), (tt, tt)),
)

find_session_exact_example : (find_session (text "mic") (run changes empty_hub) ≡ ok mic) ↔ (
    (session (2 ∷ []) (run changes empty_hub) ≡ ok mic)
    × (has_name (text "mic") (text "mic" ∷ []) ≡ true))
unfolding run unregister_session register_session
find_session_exact_example =
    find_session_exact changes empty_hub (text "mic") mic refl refl refl changes-AreTimely
      changes-AreApart refl
