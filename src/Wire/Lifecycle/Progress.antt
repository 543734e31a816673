-- ===== src/Wire/Lifecycle/Progress.antt =====
-- A call of a wire's `Close` that meets the goroutine of shutdown can always go on to its return.
use go_wirenet.Base.{
  ℕ, ◌≡◌, refl, ap, ◌∙◌, Bool, true, none, some, List, [], ◌∷◌, arith, ◌⊎◌, if◌then◌else◌, inl, inr,
}
use go_wirenet.Errors.Defs.{ShutdownError, new_shutdown_error}
use go_wirenet.Wire.State.{Peer, Wire}
use go_wirenet.Wire.Close.{after_close, note_error, shutdown_result}
use go_wirenet.Wire.Lifecycle.{
  sending, sent, returned, Server, listening, taken, closing, replying, ended, hanging, Acceptor,
  System, Step, send, snapshot, close_next, close_conn, answer, Reach, here, next, init, values,
  hangs, set_call,
}
use go_wirenet.Wire.Lifecycle.Invariant.{
  follow, served, is_returned, is_close, Inv, Reach-Inv, closed-after_close, hangs-closed,
}

-- From `s` the call `i` can return, by steps that are its own, the goroutine's and the sessions'.
abbrev pub CanReturn : {H : Type 0} → System H → ℕ → Type 0
CanReturn {H} s i = (t : System H) × Reach s t × (is_returned (t.calls i) ≡ true)

module _ {H : Type 0} (i : ℕ) where
  before : {s t : System H} → Step s t → CanReturn t i → CanReturn s i
  before st (t, r, back) = (t, follow (next here st) r, back)

  replying-CanReturn :
      (s : System H) (acc : ShutdownError) (b : Bool)
      → s.server ≡ replying i acc
      → s.calls i ≡ sent b
      → CanReturn s i
  replying-CanReturn s acc b h c = (
    set_call i (returned b (shutdown_result acc)) (record s { server = ended i }),
    next here (answer i acc b h c),
    ground arith,
  )

  -- The sessions of the copy are closed one by one.
  closing-CanReturn :
      (rest : List Peer) (s : System H) (acc : ShutdownError) (b : Bool)
      → s.server ≡ closing i rest acc
      → s.calls i ≡ sent b
      → s.wire.closed ≡ true
      → CanReturn s i
  closing-CanReturn [] s acc b h c closed =
      before (close_conn i acc none h)
        (replying-CanReturn (record s { server = replying i acc; conn_closed = true }) acc b refl c)
  closing-CanReturn (p ∷ rest) s acc b h c closed = before (close_next i p rest acc none h) (
      closing-CanReturn rest
        (record s {
          wire = after_close none p s.wire;
          server = if hangs none p s.wire then hanging i else closing i rest (note_error none acc);
          already = s.already;
        })
        (note_error none acc) b
        (ap (λ x. if x then hanging i else closing i rest (note_error none acc))
          (hangs-closed none p s.wire closed))
        c (closed-after_close none p s.wire ∙ closed))

  taken-CanReturn :
      (s : System H) (b : Bool)
      → s.server ≡ taken i
      → s.calls i ≡ sent b
      → s.wire.closed ≡ true
      → CanReturn s i
  taken-CanReturn s b h c closed = before (snapshot i h) (
      closing-CanReturn (values s.wire.sessions)
        (record s {
          server = closing i (values s.wire.sessions) new_shutdown_error;
          late = [];
          already = [];
        })
        new_shutdown_error b refl c closed)

  sending-CanReturn :
      (s : System H) (b : Bool)
      → s.server ≡ listening
      → s.calls i ≡ sending b
      → s.wire.closed ≡ true
      → CanReturn s i
  sending-CanReturn s b h c closed = before (send i b c h) (
      taken-CanReturn (set_call i (sent b) (record s { server = taken i })) b refl (ground arith)
        closed)

  module _ (s : System H) (inv : Inv s i) (flag : is_close (s.calls i) ≡ true) where
    served-CanReturn : (x : Server) → s.server ≡ x → served x ≡ some i → CanReturn s i
    served-CanReturn listening h m = cc
    served-CanReturn (taken j) h m =
        taken-CanReturn s true (ground arith) (ground (arith, inv.waits)) (inv.flagged flag)
    served-CanReturn (closing j rest acc) h m =
        closing-CanReturn rest s acc true (ground arith) (ground (arith, inv.waits))
          (inv.flagged flag)
    served-CanReturn (replying j acc) h m =
        replying-CanReturn s acc true (ground arith) (ground (arith, inv.waits))
    served-CanReturn (ended j) h m = (s, here, ground (arith, inv.done))
    served-CanReturn (hanging j) h m = ground (arith, inv.not_hung)

-- A call of `Close` of a wire that finds the goroutine of shutdown listening, or that it has taken
-- already, can go on to return, whatever happened before and however many sessions there are, if
-- each session's `Close` returns.
pub close_wire-CanReturn :
    {H : Type 0} (w : Wire H) (a : Acceptor) (ps : List Peer) {s : System H}
    → Reach (init w a ps) s
    → (i : ℕ) → is_close (s.calls i) ≡ true
    → ((s.calls i ≡ sending true) × (s.server ≡ listening)) ⊎ (served s.server ≡ some i)
    → CanReturn s i
close_wire-CanReturn w a ps {s} r i flag (inl (m, free)) =
    sending-CanReturn i s true free m ((Reach-Inv w a ps i r).flagged flag)
close_wire-CanReturn w a ps {s} r i flag (inr m) =
    served-CanReturn i s (Reach-Inv w a ps i r) flag s.server refl m
