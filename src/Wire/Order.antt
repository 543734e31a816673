-- ===== src/Wire/Order.antt =====
-- Go goes over a map in any order: what shutdown makes of the sessions in one order and in another.
use go_wirenet.Base.{
  ◌≡◌, refl, sym, ap, subst, ◌∙◌, List, [], ◌∷◌, ◌++◌, append-nil, append_assoc, Option, none, some,
  arith, Bytes, if◌then◌else◌,
}
use mathlib.Core.List.{Perm, perm_middle}
use mathlib.Core.List.Perm
use mathlib.Core.List.Permᴰ.{Permᴰ, nil, cons, swap, trans}
use go_wirenet.Base.Assoc.{Assoc, remove}
use go_wirenet.Go.{Error, is_session_closed}
use go_wirenet.Errors.Defs.{ShutdownError, add}
use go_wirenet.Wire.State.{Peer, Wire}
use go_wirenet.Wire.Registry.{unindex_names, unregister_session}
use go_wirenet.Wire.Close.{note_error, after_close, close_sessions}

remove_comm :
    {V : Type 0} (a b : Bytes) (m : Assoc V) → remove a (remove b m) ≡ remove b (remove a m)
unfolding remove
remove_comm a b [] = refl
remove_comm a b ((k, v) ∷ m) = ground (arith, remove_comm a b m)

unindex_names-remove :
    (ns : List Bytes) (b : Bytes) (m : Assoc Peer)
    → unindex_names ns (remove b m) ≡ remove b (unindex_names ns m)
unfolding unindex_names
unindex_names-remove [] b m = refl
unindex_names-remove (n ∷ ns) b m =
    ap (unindex_names ns) (remove_comm n b m) ∙ unindex_names-remove ns b (remove n m)

unindex_names_comm :
    (ns ms : List Bytes) (m : Assoc Peer)
    → unindex_names ns (unindex_names ms m) ≡ unindex_names ms (unindex_names ns m)
unfolding unindex_names
unindex_names_comm ns [] m = refl
unindex_names_comm ns (k ∷ ms) m =
    unindex_names_comm ns ms (remove k m) ∙ ap (unindex_names ms) (unindex_names-remove ns k m)

-- What `shutdown` adds for one answer, and for those of the sessions.
abbrev kept : Option Error → List Error
kept none = []
kept (some e) = if is_session_closed e then [] else e ∷ []

abbrev kept_errors : (Peer → Option Error) → Assoc Peer → List Error
kept_errors answer [] = []
kept_errors answer ((k, p) ∷ rest) = kept (answer p) ++ kept_errors answer rest

note_error-kept :
    (e : Option Error) (acc : ShutdownError) → (note_error e acc).errors ≡ acc.errors ++ kept e
unfolding note_error add
note_error-kept none acc = sym (append-nil acc.errors)
note_error-kept (some e) acc = ground (arith, append-nil acc.errors)

swap_append : {A : Type 0} (xs ys zs : List A) → Perm (xs ++ (ys ++ zs)) (ys ++ (xs ++ zs))
swap_append [] ys zs = Perm.rfl
swap_append (x ∷ xs) ys zs =
    Perm.trans (Perm.cons x (swap_append xs ys zs)) (Perm.symm (perm_middle ys (xs ++ zs)))

kept_errors-Perm :
    (answer : Peer → Option Error) {m m' : Assoc Peer}
    → Permᴰ m m'
    → Perm (kept_errors answer m) (kept_errors answer m')
kept_errors-Perm answer nil = Perm.rfl
kept_errors-Perm answer (cons {a = (k, p)} {b = (k', p')} {l₁ = l'} {l₂ = l} e d) =
    subst
      (λ x.
        Perm (kept (answer p) ++ kept_errors answer l') (kept (answer x.1) ++ kept_errors answer l))
      e (Perm.append_left (kept (answer p)) (kept_errors-Perm answer d))
kept_errors-Perm answer (swap {a = (j, p)} {b = (k, q)} {a' = a'} {b' = b'} {l = l} e e') =
    let here = kept (answer p) ++ (kept (answer q) ++ kept_errors answer l) in
    subst (λ x. Perm here (kept (answer x.1) ++ (kept (answer b'.1) ++ kept_errors answer l))) e'
      (subst (λ x. Perm here (kept (answer q) ++ (kept (answer x.1) ++ kept_errors answer l))) e
        (swap_append (kept (answer p)) (kept (answer q)) (kept_errors answer l)))
kept_errors-Perm answer (trans d d') =
    Perm.trans (kept_errors-Perm answer d) (kept_errors-Perm answer d')

module _ {H : Type 0} where
  unregister_comm :
      (p q : Peer) (w : Wire H)
      → (unregister_session p (unregister_session q w).0).0
        ≡ (unregister_session q (unregister_session p w).0).0
  unfolding unregister_session
  unregister_comm p q w =
      let f : Assoc Peer → Assoc Peer → Wire H =
        λ a b. record w { sessions = a; stream_index = b } in
      let i : Assoc Peer = (unregister_session p (unregister_session q w).0).0.stream_index in
      let index : i ≡ (unregister_session q (unregister_session p w).0).0.stream_index =
        ground (arith, unindex_names_comm p.stream_names q.stream_names w.stream_index) in
      ap (λ a. f a i) (remove_comm p.id q.id w.sessions)
      ∙ ap (f (remove q.id (remove p.id w.sessions))) index

  after_close_comm :
      (d e : Option Error) (p q : Peer) (w : Wire H)
      → after_close d p (after_close e q w) ≡ after_close e q (after_close d p w)
  unfolding after_close
  after_close_comm none none p q w = unregister_comm p q w
  after_close_comm none (some e) p q w = ground (arith, unregister_comm p q w)
  after_close_comm (some d) none p q w = ground (arith, unregister_comm p q w)
  after_close_comm (some d) (some e) p q w = ground (arith, unregister_comm p q w)

  module _ (answer : Peer → Option Error) where
    abbrev gone : Bytes × Peer → Wire H → Wire H
    gone x w = after_close (answer x.1) x.1 w

    -- The wire that is left does not hang on the errors so far.
    leaves : Assoc Peer → Wire H → Wire H
    leaves [] w = w
    leaves ((k, p) ∷ rest) w = leaves rest (after_close (answer p) p w)

    close_sessions-leaves :
        (m : Assoc Peer) (acc : ShutdownError) (w : Wire H)
        → (close_sessions answer m acc w).1 ≡ leaves m w
    unfolding close_sessions leaves
    close_sessions-leaves [] acc w = refl
    close_sessions-leaves ((k, p) ∷ rest) acc w =
        close_sessions-leaves rest (note_error (answer p) acc) (after_close (answer p) p w)

    leaves-Permᴰ : {m m' : Assoc Peer} → Permᴰ m m' → (w : Wire H) → leaves m w ≡ leaves m' w
    unfolding leaves
    leaves-Permᴰ nil w = refl
    leaves-Permᴰ (cons {a = (k, p)} {b = (k', p')} {l₂ = l} e d) w =
        leaves-Permᴰ d (after_close (answer p) p w) ∙ ap (λ x. leaves l (gone x w)) e
    leaves-Permᴰ (swap {a = (j, p)} {b = (k, q)} {b' = b'} {l = l} e e') w =
        ap (leaves l) (after_close_comm (answer q) (answer p) q p w)
        ∙ ap (λ x. leaves l (gone x (gone (k, q) w))) e
        ∙ ap (λ x. leaves l (gone b' (gone x w))) e'
    leaves-Permᴰ (trans d d') w = leaves-Permᴰ d w ∙ leaves-Permᴰ d' w

    close_sessions-kept :
        (m : Assoc Peer) (acc : ShutdownError) (w : Wire H)
        → (close_sessions answer m acc w).0.errors ≡ acc.errors ++ kept_errors answer m
    unfolding close_sessions
    close_sessions-kept [] acc w = sym (append-nil acc.errors)
    close_sessions-kept ((k, p) ∷ rest) acc w =
        close_sessions-kept rest (note_error (answer p) acc) (after_close (answer p) p w)
        ∙ ap (λ es. es ++ kept_errors answer rest) (note_error-kept (answer p) acc)
        ∙ append_assoc acc.errors (kept (answer p)) (kept_errors answer rest)

    -- Close treats the sessions of the map alike in whatever order Go goes over them: what is left of the
    -- wire is the same, and the errors are the same but for their order.
    pub close_sessions_any_order :
        (m m' : Assoc Peer) (acc : ShutdownError) (w : Wire H)
        → Permᴰ m m'
        → ((close_sessions answer m acc w).1 ≡ (close_sessions answer m' acc w).1)
          × Perm (close_sessions answer m acc w).0.errors (close_sessions answer m' acc w).0.errors
    close_sessions_any_order m m' acc w d = (
      close_sessions-leaves m acc w ∙ leaves-Permᴰ d w ∙ sym (close_sessions-leaves m' acc w),
      rw (close_sessions-kept m acc w, close_sessions-kept m' acc w)
          (Perm.append_left acc.errors (kept_errors-Perm answer d)),
    )
