-- ===== src/Wire/Control.antt =====
-- openSession and confirmSession (wirenet.go): the handshake on a control stream of its own.
use go_wirenet.Base.{List, Bytes}
use go_wirenet.Go.{M, pure, ◌>>=◌, ◌>>◌}
use go_wirenet.Io.{Reader, Writer}
use go_wirenet.Wire.State.{Wire}
use go_wirenet.Wire.Registry.{local_stream_names}
use go_wirenet.Wire.Handshake.{Protobuf, open_session_request, confirm_session_request}

-- What the wire uses of a `*yamux.Session`: its control stream is `reader` and `writer`.
pub record Mux (S : Type 0) : Type 0 where
  pub open_control : M S (Unit {0})
  pub accept_control : M S (Unit {0})
  pub set_deadline : M S (Unit {0})
  pub close_control : S → S
  pub reader : Reader S
  pub writer : Writer S

module _ {H S : Type 0} (pb : Protobuf) (mux : Mux S) (w : Wire H) where
  -- `defer stream.Close()`
  abbrev and_close {ℓ} : {A : Type ℓ} → M S A → M S A
  and_close m s = let (a, s') = m s in (a, mux.close_control s')

  -- `sid` is what `uuid.New()` gave, whose binary form is itself.
  unfoldable pub open_session : Bytes → M S (Bytes × List Bytes)
  open_session sid = do
    mux.open_control
    and_close (do
      mux.set_deadline
      names ←
          open_session_request pb mux.reader mux.writer sid w.token w.identification
            (local_stream_names w.handlers)
      pure (sid, names))

  unfoldable pub confirm_session : M S (Bytes × Bytes × List Bytes)
  confirm_session = do
    mux.accept_control
    and_close (do
      mux.set_deadline
      confirm_session_request pb mux.reader mux.writer w.verify_token
          (local_stream_names w.handlers))
