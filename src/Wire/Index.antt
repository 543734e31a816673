-- ===== src/Wire/Index.antt =====
-- What the hub's index answers as sessions come and go.
use go_wirenet.Base.{
  ◌≡◌, ◌≢◌, refl, Bool, true, false, ◌||◌, none, some, List, [], ◌∷◌, arith, Bytes, same_bytes,
  same_bytes_iff, length, if◌then◌else◌,
}
use go_wirenet.Base.Assoc.{
  Assoc, lookup, insert, length-lookup, remove, lookup-insert, lookup-remove,
}
use go_wirenet.Go.{ok, err, session_not_found}
use go_wirenet.Wire.State.{Peer, Wire}
use go_wirenet.Wire.Registry.{
  or_error, index_names, unindex_names, register_session, unregister_session, find_session, session,
}

-- Whether a name is in a list of names.
unfoldable pub has_name : Bytes → List Bytes → Bool
has_name n [] = false
has_name n (m ∷ ms) = same_bytes m n || has_name n ms

pub lookup-index_names :
    (ns : List Bytes) (p : Peer) (m : Assoc Peer) (n : Bytes)
    → lookup n (index_names ns p m) ≡ (if has_name n ns then some p else lookup n m)
unfolding index_names has_name
lookup-index_names [] p m n = refl
lookup-index_names (k ∷ ns) p m n =
    ground (arith, lookup-index_names ns p (insert k p m) n, lookup-insert k n p m)

pub lookup-unindex_names :
    (ns : List Bytes) (m : Assoc Peer) (n : Bytes)
    → lookup n (unindex_names ns m) ≡ (if has_name n ns then none else lookup n m)
unfolding unindex_names has_name
lookup-unindex_names [] m n = refl
lookup-unindex_names (k ∷ ns) m n =
    ground (arith, lookup-unindex_names ns (remove k m) n, lookup-remove k n m)

module _ {H : Type 0} (w : Wire H) (p : Peer) (name : Bytes) where
  -- On an open hub, once a session is registered, each of its names leads to it, and any other
  -- name leads where the index led it before, or to ErrSessionNotFound.
  pub find_session-register_session :
      w.hub_mode ≡ true
      → w.closed ≡ false
      → find_session name (register_session p w) ≡ (
          if has_name name p.stream_names
          then ok p
          else or_error session_not_found (lookup name w.stream_index))
  unfolding find_session register_session insert
  find_session-register_session hub is_open =
      ground (arith, lookup-index_names p.stream_names p w.stream_index name)

  -- The session is found by its id from its registration until it is taken off.
  pub session-register_session :
      (session p.id (register_session p w) ≡ ok p)
      × (session p.id (unregister_session p w).0 ≡ err session_not_found)
  unfolding session register_session unregister_session
  session-register_session = ground (
    arith,
    lookup-insert p.id p.id p w.sessions,
    lookup-remove p.id p.id w.sessions,
    same_bytes_iff p.id p.id,
  )

-- On an open hub, when a session leaves, each of its names leads nowhere, whoever holds it by then:
-- a session that registered the same name later, and stays, cannot be reached by it any more.
pub shared_name_lost :
    {H : Type 0} (w : Wire H) (p q : Peer) (name : Bytes)
    → w.hub_mode ≡ true
    → w.closed ≡ false
    → has_name name p.stream_names ≡ true
    → has_name name q.stream_names ≡ true
    → p.id ≢ q.id
    → let w2 = register_session q (register_session p w) in
      (find_session name w2 ≡ ok q)
      × (session q.id (unregister_session p w2).0 ≡ ok q)
      × (find_session name (unregister_session p w2).0 ≡ err session_not_found)
unfolding find_session register_session unregister_session session
shared_name_lost w p q name hub is_open hp hq ne =
    let m1 : Assoc Peer = insert p.id p w.sessions in
    let m2 : Assoc Peer = insert q.id q m1 in
    let i1 : Assoc Peer = index_names p.stream_names p w.stream_index in
    let here : lookup q.id m2 ≡ some q =
      ground (arith, lookup-insert q.id q.id q m1, same_bytes_iff q.id q.id) in
    let stays : lookup q.id (remove p.id m2) ≡ some q =
      ground (arith, lookup-remove p.id q.id m2, here, same_bytes_iff p.id q.id) in
    let many : length m2 ≢ 0 = length-lookup q.id m2 here in
    let some_left : length (remove p.id m2) ≢ 0 = length-lookup q.id (remove p.id m2) stays in
    (
      ground (arith, lookup-index_names q.stream_names q i1 name),
      ground arith,
      ground (arith, lookup-unindex_names p.stream_names (index_names q.stream_names q i1) name),
    )
