-- ===== src/Tests/Networks.antt =====
-- Certificates by their names, and a wire that uses TLS.
use go_wirenet.Base.{ℕ, ◌≡◌, refl, some, List, [], ◌∷◌, ◌++◌, Bytes, text, Bool, true, false}
use go_wirenet.Go.{Go, ok, err, unknown_certificate_name}
use go_wirenet.Cert.{load_certificates}
use go_wirenet.Wire.State.{Callback}
use go_wirenet.Wire.Options.{with_tls}
use go_wirenet.Wire.Network.{dial, listen}
use go_wirenet.Tests.Wires.{a_wire}

abbrev with_slash : Bytes → Bytes → Bytes
with_slash a b = a ++ (text "/" ++ b)

abbrev named : Bytes → Bytes → List Bytes → Go (List Bytes) × List Bytes
named pem key s = (ok (pem ∷ key ∷ []), pem ∷ key ∷ s)

loads_pair : load_certificates {R = ℕ} with_slash named 7 (text "server") (text "certs") [] ≡ (
  ok (record {
    certificates = (text "certs/server.pem" ∷ text "certs/server.key" ∷ []) ∷ [];
    rand = some 7;
  }),
  text "certs/server.pem" ∷ text "certs/server.key" ∷ [],
)
unfolding load_certificates
loads_pair = refl

loads_nothing :
    load_certificates {R = ℕ} with_slash named 7 [] (text "certs") []
    ≡ (err unknown_certificate_name, [])
unfolding load_certificates
loads_nothing = refl

abbrev plain : Bytes → ℕ → Go Bool × ℕ
plain a s = (ok false, s)

abbrev secured : Bytes → Callback → ℕ → Go Bool × ℕ
secured a conf s = (ok true, conf)

dials_plain : dial plain secured (a_wire false false 0 []) 0 ≡ (ok false, 0)
unfolding dial
dials_plain = refl

listens_secured : listen plain secured (with_tls 5 (a_wire false false 0 [])) 0 ≡ (ok true, 5)
unfolding listen with_tls
listens_secured = refl
