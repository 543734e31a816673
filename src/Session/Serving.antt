-- ===== src/Session/Serving.antt =====
-- What becomes of a stream that passes the checks (session.go).
use go_wirenet.Base.{
  ℕ, ◌^◌, ◌<◌, ◌≡◌, ◌⊎◌, inl, inr, refl, sym, ap, subst, ◌∙◌, Bool, true, false, Bool-cases, ◌||◌,
  Option, none, some, List, [], ◌++◌, arith, Bytes, length, if◌then◌else◌, ◌==◌,
}
use go_wirenet.Base.Assoc.{lookup}
use go_wirenet.Go.{
  Error, session_closed, session_not_found, stream_handler_not_found, is_session_not_found, Go, ok,
  err, panic, stuck, M,
}
use go_wirenet.Io.{Reader, Writer, Delivers}
use go_wirenet.Errors.Defs.{OpError}
use go_wirenet.Frame.Format.{Frame, frame_bytes, command, recv_frame_typ}
use go_wirenet.Frame.Encoder.{encode_new}
use go_wirenet.Frame.Decoder.{decode_new}
use go_wirenet.Frame.Fields.{frame_fields}
use go_wirenet.Frame.Replies.{recv_frame-request}
use go_wirenet.Frame.Safety.{Ends}
use go_wirenet.Stream.Defs.{Stream, new_stream}
use go_wirenet.Wire.State.{Peer, Wire}
use go_wirenet.Wire.Registry.{or_error, find_handler, find_session}
use go_wirenet.Session.State.{Session, register_stream}
use go_wirenet.Session.Dispatch.{
  error_of, not_found, is_hub_side, check_frame, read_frame, validate_token, validate_stream_name,
}
use go_wirenet.Session.Serve.{
  Ran, after_find, after_handler, serve_hub_stream, serve_stream, log_served, after_hub,
  dispatch_name, after_frame, dispatch_stream,
}
use go_wirenet.Session.Handlers.{invalid, check_frame-invalid, serve_stream_ran}

or_error-Ends : {A : Type 0} (e : Error) (o : Option A) → Ends (or_error e o)
or_error-Ends e none = tt
or_error-Ends e (some a) = tt

-- Where a stream of that name goes: to its handler, where this is no hub's side or no session offers
-- the name, or on a hub to the session that offers it.
abbrev pub Goes : {H : Type 0} → Bool → Go H → Go Peer → Type 0
Goes {H} hub handler session =
    ((h : H) × (handler ≡ ok h) × ((hub ≡ false) ⊎ (session ≡ err session_not_found)))
    ⊎ ((p : Peer) × (session ≡ ok p) × (hub ≡ true))

not_found_is : (e : Error) → is_session_not_found e ≡ true → e ≡ session_not_found
not_found_is session_not_found h = refl
not_found_is _ h = ground arith

first_test : (b : Bool) (e : Error) → (if b then none else some e) ≡ none → b ≡ true
first_test b e h = ground arith

neither : {A : Type 0} (b : Bool) (e' e : Error) → (if b then some e' else some e) ≡ none → A
neither true e' e h = absurd (let no : some e' ≡ none = h in cc)
neither false e' e h = absurd (let no : some e ≡ none = h in cc)

goes :
    {H : Type 0} (hub : Bool) (handler : Go H) (session : Go Peer)
    → Ends handler
    → Ends session
    → (if hub
        then (if not_found session then error_of handler else error_of session)
        else error_of handler)
      ≡ none
    → Goes hub handler session
goes false (ok h) session x y fine = inl (h, refl, inl refl)
goes false (err e) session x y fine = absurd (let no : some e ≡ none = fine in cc)
goes false panic session x y fine = absurd x
goes false stuck session x y fine = absurd x
goes true handler (ok p) x y fine = inr (p, refl, refl)
goes true handler panic x y fine = absurd y
goes true handler stuck x y fine = absurd y
goes true (ok h) (err e) x y fine =
    inl (h, refl, inr (ap err (not_found_is e (first_test (is_session_not_found e) e fine))))
goes true (err e') (err e) x y fine = neither (is_session_not_found e) e' e fine
goes true panic (err e) x y fine = absurd x
goes true stuck (err e) x y fine = absurd x

module _ {H : Type 0} (w : Wire H) (name : Bytes) where
  either-Ends : (b : Bool) (g : Go Peer) → Ends g → Ends (if b then err session_closed else g)
  either-Ends true g h = tt
  either-Ends false g h = h

  validated :
      validate_stream_name w name ≡ none
      → Goes (is_hub_side w) (find_handler name w) (find_session name w)
  unfolding validate_stream_name find_handler find_session
  validated fine =
      goes (is_hub_side w) (find_handler name w) (find_session name w)
        (or_error-Ends stream_handler_not_found (lookup name w.handlers))
        (either-Ends ((length w.sessions == 0) || w.closed)
          (or_error session_not_found (lookup name w.stream_index))
          (or_error-Ends session_not_found (lookup name w.stream_index)))
        fine

module _ {H : Type 0} (w : Wire H) (run : H → Stream → Session → Ran) (local remote : Bytes)
    {S : Type 0} (forward : Peer → Bytes → M S (Unit {0})) (id name : Bytes) (s : Session)
    (x : S) where
  -- The handler of the name runs on a new, registered stream.
  abbrev pub Handled : Go (List OpError × Session) × S → Type 0
  Handled g =
      (h : H) × (find_handler name w ≡ ok h)
      × (let t = new_stream id name in
          g ≡ (
            ok (
                log_served w run local remote
                  (after_handler w run local remote (run h t (register_stream t s)))),
            x,
          ))

  -- The stream is copied to the session that offers the name, and what comes of that is logged.
  abbrev pub Forwarded : Go (List OpError × Session) × S → Type 0
  Forwarded g =
      (p : Peer) × (find_session name w ≡ ok p)
      × (is_hub_side w ≡ true)
      × (g ≡ after_hub w run local remote forward id name s (forward p name x))

  self_served :
      is_hub_side w ≡ false
      → dispatch_name w run local remote forward id name s x
        ≡ (ok (log_served w run local remote (serve_stream w run local remote id name s)), x)
  unfolding dispatch_name
  self_served h = rw h refl

  hub_served :
      is_hub_side w ≡ true
      → dispatch_name w run local remote forward id name s x
        ≡ after_hub w run local remote forward id name s
            (after_find forward name (find_session name w) x)
  unfolding dispatch_name serve_hub_stream
  hub_served h = rw h refl

  handled :
      (h : H)
      → find_handler name w ≡ ok h
      → ((is_hub_side w ≡ false) ⊎ (find_session name w ≡ err session_not_found))
      → Handled (dispatch_name w run local remote forward id name s x)
  handled h found why =
      let t : Stream = new_stream id name in
      let served =
        serve_stream_ran w run local remote id name h s (run h t (register_stream t s)) found
          refl in
      let shown = ap (λ v. (ok (log_served w run local remote v), x)) served in
      (
        h,
        found,
        elim (Bool-cases (is_hub_side w)) [
          | inr alone ↦ self_served alone ∙ shown
          | inl hub ↦ elim why [
            | inl alone ↦ self_served alone ∙ shown
            | inr missing ↦
                hub_served hub
                ∙ ap
                    (λ g.
                      after_hub w run local remote forward id name s (after_find forward name g x))
                    missing
                ∙ shown
          ]
        ],
      )

  -- One of the two.
  abbrev pub Served : Go (List OpError × Session) × S → Type 0
  Served g = Handled g ⊎ Forwarded g

  named :
      Goes (is_hub_side w) (find_handler name w) (find_session name w)
      → Served (dispatch_name w run local remote forward id name s x)
  named (inl (h, found, why)) = inl (handled h found why)
  named (inr (p, found, hub)) = inr (
    p,
    found,
    hub,
    hub_served hub
        ∙ ap (λ g. after_hub w run local remote forward id name s (after_find forward name g x))
            found,
  )

valid_name : (o v : Option Error) → elim o [ some e ↦ some e | none ↦ v ] ≡ none → v ≡ none
valid_name none v h = h
valid_name (some e) v h = absurd (let no : some e ≡ none = h in cc)

module _ {H : Type 0} (w : Wire H) (run : H → Stream → Session → Ran) (local remote : Bytes)
    {S : Type 0} (forward : Peer → Bytes → M S (Unit {0})) where
  named_frame :
      (id : Bytes) (s : Session) (frm : Frame) (name : Bytes) (x : S)
      → command frm ≡ some name
      → after_frame w run local remote forward id s (ok (frm, none), x)
        ≡ dispatch_name w run local remote forward id name s x
  named_frame id s frm name x h = rw (h, after_frame) refl

  -- A stream that asks for a name with a token, when both pass the checks: the answer that it is
  -- accepted is written back, and either the handler of the name runs on it as a new, registered
  -- stream, or, on a hub, it is copied to the session that offers the name.
  pub dispatch_stream-valid :
      (r : Reader S) (wr : Writer S) {pending : S → Bytes} (law : Delivers r pending)
      (id name token rest : Bytes) (t : ℕ) (s : Session) (x x2 : S)
      → t < 2 ^ 32
      → length name < 2 ^ 32
      → length token < 2 ^ 32
      → pending x ≡ frame_bytes t name token ++ rest
      → invalid w s.identification name token ≡ none
      → encode_new wr recv_frame_typ name [] (decode_new r x).1 ≡ (ok tt, x2)
      → Served w run local remote forward id name s x2
          (dispatch_stream w run local remote forward r wr id s x)
  unfolding dispatch_stream read_frame
  dispatch_stream-valid r wr law id name token rest t s x x2 ht hn hp p fine sent =
      let (_, c, b) = frame_fields t name token ht hn hp in
      let x1 = (decode_new r x).1 in
      let frm : Frame = frame_bytes t name token in
      let ran =
        ap (after_frame w run local remote forward id s) (
          recv_frame-request r wr law (some (check_frame w s.identification)) t name token rest none
            x x1 x2 ht hn hp p
            (check_frame-invalid w s.identification frm name token x1 c b
              ∙ ap (λ o. (ok o, x1)) fine)
            sent)
        ∙ named_frame id s frm name x2 c in
      subst (Served w run local remote forward id name s x2) (sym ran) (
        named w run local remote forward id name s x2 (
          validated w name (
            valid_name (validate_token w s.identification name token) (validate_stream_name w name)
              fine)))
