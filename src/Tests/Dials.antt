-- ===== src/Tests/Dials.antt =====
-- A client that dials, with concrete clocks.
use go_wirenet.Base.{ℕ, ◌*◌, ◌≡◌, refl, false, some, none, List, [], ◌∷◌, text}
use go_wirenet.Go.{Error, other}
use go_wirenet.Wire.State.{Wire, second}
use go_wirenet.Wire.Client.{Reading, Round, no_conn}
use go_wirenet.Wire.Retry.{last_error}
use go_wirenet.Tests.Wires.{a_wire}

abbrev refused_error : Error
refused_error = other (text "dial tcp: connection refused")

-- Two attempts are left, with waits of 2 and of 4 seconds.
abbrev dialing : Wire (Unit {0})
dialing = record (a_wire false false 2 []) {
  retry_wait_min = 2 * second;
  retry_wait_max = 10 * second;
}

abbrev looks : List ℕ → List Reading
looks [] = []
looks (t ∷ ts) = record { closes = false; now = t } ∷ looks ts

abbrev refusal : ℕ → List ℕ → Round
refusal start ts = record {
  closes = false;
  closes_dialing = false;
  dial = no_conn refused_error start (looks ts);
}

abbrev refusals : List Round
refusals =
    refusal second (second ∷ 2 * second ∷ 3 * second ∷ [])
    ∷ refusal (4 * second) (7 * second ∷ 8 * second ∷ [])
    ∷ []

last_refusal : last_error none refusals ≡ some refused_error
last_refusal = refl
