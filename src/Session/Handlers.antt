-- ===== src/Session/Handlers.antt =====
-- What a session's streams are after a handler, and what a refused stream does.
use go_wirenet.Base.{
  ℕ, zero, suc, ◌+◌, ◌^◌, ◌<◌, ◌≡◌, refl, sym, ap, ◌∙◌, false, Option, none, some, [], ◌∷◌, ◌++◌,
  arith, Bytes, text, length, same_bytes_self, replicate,
}
use go_wirenet.Base.Assoc.{Assoc, lookup, insert, remove, lookup-insert, remove_missing}
use go_wirenet.Go.{Error, other, ok, stuck, M}
use go_wirenet.Io.{Reader, Writer, Delivers}
use go_wirenet.Frame.Format.{Frame, frame_bytes, command, payload, err_frame_typ}
use go_wirenet.Frame.Encoder.{encode_new}
use go_wirenet.Frame.Decoder.{decode_new}
use go_wirenet.Frame.Fields.{frame_fields}
use go_wirenet.Frame.Replies.{recv_frame-request}
use go_wirenet.Go.{message}
use go_wirenet.Stream.Defs.{Stream, new_stream}
use go_wirenet.Wire.State.{Peer, Wire}
use go_wirenet.Wire.Registry.{find_handler}
use go_wirenet.Session.State.{Session, register_stream, close_stream}
use go_wirenet.Session.Shutdown.{Round, wait_streams}
use go_wirenet.Session.Dispatch.{check_frame, read_frame, validate_token, validate_stream_name}
use go_wirenet.Session.Serve.{
  after_handler, Ran, returned, panicked, err_log, serve_stream, dispatch_stream, after_frame,
}

-- A round in which the other goroutines rest, before the deadline.
abbrev pub early : Round
early = record { others = λ s. s; expired = false; held = λ _. false }

waits :
    (n : ℕ) (s : Session) → 0 < s.active_streams → wait_streams (replicate n early) s ≡ (stuck, s)
unfolding wait_streams
waits zero s busy = refl
waits (suc n) s busy = ground (arith, waits n s busy)

remove-insert :
    {V : Type 0} (k : Bytes) (v : V) (m : Assoc V) → lookup k m ≡ none → remove k (insert k v m) ≡ m
unfolding remove insert
remove-insert k v m new =
    ground
      (arith, remove_missing k m new, same_bytes_self k, ap (remove k) (remove_missing k m new))

close_stream-register_stream :
    (t u : Stream) (s : Session)
    → t.id ≡ u.id
    → lookup u.id s.streams ≡ none
    → (close_stream t (register_stream u s)).1 ≡ s
unfolding close_stream register_stream
close_stream-register_stream t u s same new =
    let left : remove t.id (insert u.id u s.streams) ≡ s.streams =
      ap (λ k. remove k (insert u.id u s.streams)) same ∙ remove-insert u.id u s.streams new in
    ground (arith, left)

registered :
    (t : Stream) (s : Session)
    → (lookup t.id (register_stream t s).streams ≡ some t)
      × ((register_stream t s).active_streams ≡ s.active_streams + 1)
unfolding register_stream
registered t s = (ground (arith, lookup-insert t.id t.id t s.streams, same_bytes_self t.id), refl)

new_stream-id : (id name : Bytes) → (new_stream id name).id ≡ id
unfolding new_stream
new_stream-id id name = refl

module _ {H : Type 0} (w : Wire H) (run : H → Stream → Session → Ran) (local remote : Bytes) where
  pub serve_stream_ran :
      (id name : Bytes) (h : H) (s : Session) (x : Ran)
      → find_handler name w ≡ ok h
      → run h (new_stream id name) (register_stream (new_stream id name) s) ≡ x
      → serve_stream w run local remote id name s ≡ after_handler w run local remote x
  unfolding serve_stream
  serve_stream_ran id name h s x found ran =
      rw (found, serve_stream) (ap (after_handler w run local remote) ran)

  -- A handler that returns with its stream open, and leaves the session's other streams alone: the
  -- session is what it was before the stream came, and nothing is logged.
  pub serve_stream_returned :
      (id name : Bytes) (h : H) (t : Stream) (s : Session)
      → find_handler name w ≡ ok h
      → lookup id s.streams ≡ none
      → run h (new_stream id name) (register_stream (new_stream id name) s)
        ≡ returned t (register_stream (new_stream id name) s)
      → t.id ≡ id
      → t.closed ≡ false
      → serve_stream w run local remote id name s ≡ (none, [], s)
  serve_stream_returned id name h t s found new ran same is_open =
      let u : Stream = new_stream id name in
      let key : u.id ≡ id = new_stream-id id name in
      serve_stream_ran id name h s (returned t (register_stream u s)) found ran
      ∙ simp is_open (
          ap (λ (x : Session). (none, [], x))
            (close_stream-register_stream t u s (same ∙ sym key)
              (ap (λ k. lookup k s.streams) key ∙ new)))

  -- A handler that panics: the panic is logged, and the stream stays in the session's map and in
  -- its counter, so that a Close of the session waits for it until the deadline, however many rounds
  -- pass before.
  pub serve_stream_panicked :
      (id name v : Bytes) (h : H) (s : Session) (n : ℕ)
      → find_handler name w ≡ ok h
      → run h (new_stream id name) (register_stream (new_stream id name) s)
        ≡ panicked v (register_stream (new_stream id name) s)
      → (s' : Session) × (serve_stream w run local remote id name s ≡ (
        none,
        err_log local remote s' (other (text "recover " ++ v)) (text "recover stream") ∷ [],
        s',
      ))
        × (lookup id s'.streams ≡ some (new_stream id name))
        × (s'.active_streams ≡ s.active_streams + 1)
        × (wait_streams (replicate n early) s' ≡ (stuck, s'))
  serve_stream_panicked id name v h s n found ran =
      let u : Stream = new_stream id name in
      let s' : Session = register_stream u s in
      let (there, counted) = registered u s in
      (
        s',
        serve_stream_ran id name h s (panicked v s') found ran,
        ap (λ k. lookup k s'.streams) (sym (new_stream-id id name)) ∙ there,
        counted,
        waits n s' (omega (arith, counted)),
      )

-- The check of an incoming stream: its token, then its name.
abbrev pub invalid : {H : Type 0} → Wire H → Bytes → Bytes → Bytes → Option Error
invalid w id name token = elim (validate_token w id name token) [
  | some e ↦ some e
  | none ↦ validate_stream_name w name
]

pub check_frame-invalid :
    {H S : Type 0} (w : Wire H) (id : Bytes) (f : Frame) (name token : Bytes) (s : S)
    → command f ≡ some name
    → payload f ≡ some token
    → check_frame w id f s ≡ (ok (invalid w id name token), s)
unfolding check_frame
check_frame-invalid w id f name token s c p = rw (c, p) refl

-- A stream that asks for a name with a token, when one of them is refused: no handler runs and
-- nothing is forwarded, the session's streams are as before, the refusal is written back, and the
-- error handler gets it once.
pub dispatch_stream-invalid :
    {H : Type 0} (w : Wire H) (run : H → Stream → Session → Ran) (local remote : Bytes) {S : Type 0}
    (forward : Peer → Bytes → M S (Unit {0})) (r : Reader S) (wr : Writer S) {pending : S → Bytes}
    (law : Delivers r pending) (id name token rest : Bytes) (t : ℕ) (e : Error) (s : Session)
    (x x2 : S)
    → t < 2 ^ 32
    → length name < 2 ^ 32
    → length token < 2 ^ 32
    → pending x ≡ frame_bytes t name token ++ rest
    → invalid w s.identification name token ≡ some e
    → encode_new wr err_frame_typ name (message e) (decode_new r x).1 ≡ (ok tt, x2)
    → dispatch_stream w run local remote forward r wr id s x
      ≡ (ok (err_log local remote s e (text "validate stream") ∷ [], s), x2)
unfolding dispatch_stream read_frame
dispatch_stream-invalid w run local remote forward r wr law id name token rest t e s x x2 ht hn hp p
      bad sent =
    let (_, c, b) = frame_fields t name token ht hn hp in
    let x1 = (decode_new r x).1 in
    ap (after_frame w run local remote forward id s) (
      recv_frame-request r wr law (some (check_frame w s.identification)) t name token rest (some e)
        x x1 x2 ht hn hp p
        (check_frame-invalid w s.identification (frame_bytes t name token) name token x1 c b
          ∙ ap (λ o. (ok o, x1)) bad)
        sent)
