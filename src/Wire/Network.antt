-- ===== src/Wire/Network.antt =====
-- `listen` and `dial` (wirenet.go): with TLS where the wire has a configuration for it. The calls of
-- net and crypto/tls with "tcp" are parameters, on a world `S`.
use go_wirenet.Base.{none, some, Bytes}
use go_wirenet.Go.{Go}
use go_wirenet.Wire.State.{Callback, Wire}

module _ {H S A : Type 0} where
  unfoldable pub listen :
      (Bytes → S → Go A × S) → (Bytes → Callback → S → Go A × S) → Wire H → S → Go A × S
  listen net_listen tls_listen w s = elim w.tls_config [
    | some conf ↦ tls_listen w.addr conf s
    | none ↦ net_listen w.addr s
  ]

  unfoldable pub dial :
      (Bytes → S → Go A × S) → (Bytes → Callback → S → Go A × S) → Wire H → S → Go A × S
  dial net_dial tls_dial w s = elim w.tls_config [
    | some conf ↦ tls_dial w.addr conf s
    | none ↦ net_dial w.addr s
  ]
