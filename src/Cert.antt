-- ===== src/Cert.antt =====
-- LoadCertificates (cert.go). `filepath.Join`, `tls.LoadX509KeyPair` on a world `S` of files, and
-- `rand.Reader` are parameters.
use go_wirenet.Base.{List, [], ◌∷◌, ◌++◌, Option, some, Bytes, text, length, ◌==◌, if◌then◌else◌}
use go_wirenet.Go.{unknown_certificate_name, Go, ok, err, panic, stuck}

-- The fields of `tls.Config` that are set.
pub record TlsConfig (C R : Type 0) : Type 0 where
  pub certificates : List C
  pub rand : Option R

module _ {C R S : Type 0} where
  abbrev with_certificate : R → Go C × S → Go (TlsConfig C R) × S
  with_certificate reader (ok c, s) = (ok (record { certificates = c ∷ []; rand = some reader }), s)
  with_certificate reader (err e, s) = (err e, s)
  with_certificate reader (panic, s) = (panic, s)
  with_certificate reader (stuck, s) = (stuck, s)

  unfoldable pub load_certificates :
      (Bytes → Bytes → Bytes)
      → (Bytes → Bytes → S → Go C × S)
      → R
      → Bytes
      → Bytes
      → S
      → Go (TlsConfig C R) × S
  load_certificates join load reader name cert_path s =
      if length name == 0
      then (err unknown_certificate_name, s)
      else with_certificate reader
          (load (join cert_path (name ++ text ".pem")) (join cert_path (name ++ text ".key")) s)
