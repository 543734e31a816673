-- ===== src/Wire/Offers.antt =====
-- The hub's index against its sessions, over any sequence of the changes that the wire makes.
use go_wirenet.Base.{
  ◌≡◌, sym, ap, ◌∙◌, ◌↔◌, Bool, true, false, none, some, List, [], ◌∷◌, arith, Bytes,
  same_bytes_iff,
}
use go_wirenet.Base.Assoc.{length-lookup, lookup, lookup-insert, lookup-remove}
use go_wirenet.Go.{ok}
use go_wirenet.Wire.State.{Peer, Wire}
use go_wirenet.Wire.Registry.{
  register_session, unregister_session, find_session, session, stream, set_conn_flag,
}
use go_wirenet.Wire.Index.{has_name, lookup-index_names, lookup-unindex_names}

-- A change of the wire, one critical section each.
pub data Change (H : Type 0) : Type 0 where
  register : Peer → Change H
  unregister : Peer → Change H
  handle : Bytes → H → Change H
  connect : Bool → Change H
  shut : Change H  -- `w.closed = true`

module _ {H : Type 0} where
  unfoldable pub change : Change H → Wire H → Wire H
  change (register p) w = register_session p w
  change (unregister p) w = (unregister_session p w).0
  change (handle name h) w = stream name h w
  change (connect flag) w = set_conn_flag flag w
  change shut w = record w { closed = true }

  unfoldable pub run : List (Change H) → Wire H → Wire H
  unfolding change
  run [] w = w
  run (c ∷ cs) w = run cs (change c w)

  -- A session registers under a new id, and leaves once it has registered.
  abbrev pub IsTimely : Change H → Wire H → Type 0
  IsTimely (register p) w = lookup p.id w.sessions ≡ none
  IsTimely (unregister p) w = lookup p.id w.sessions ≡ some p
  IsTimely _ w = Unit

  abbrev pub AreTimely : List (Change H) → Wire H → Type 0
  AreTimely [] w = Unit
  AreTimely (c ∷ cs) w = IsTimely c w × AreTimely cs (change c w)

  -- Where the index leads: to a registered session that offers the name.
  pub record IsIndexed (w : Wire H) : Type 0 where
    pub is_hub : w.hub_mode ≡ true
    pub leads :
        (name : Bytes) (p : Peer)
        → lookup name w.stream_index ≡ some p
        → (lookup p.id w.sessions ≡ some p) × (has_name name p.stream_names ≡ true)

  register_session-IsIndexed :
      (p : Peer) (w : Wire H)
      → lookup p.id w.sessions ≡ none
      → IsIndexed w
      → IsIndexed (register_session p w)
  unfolding register_session
  register_session-IsIndexed p w new h = record {
    is_hub = h.is_hub;
    leads = λ name q e. ground (
      arith,
      h.is_hub,
      h.leads name q,
      lookup-index_names p.stream_names p w.stream_index name,
      lookup-insert p.id q.id p w.sessions,
      same_bytes_iff p.id q.id,
    );
  }

  unregister_session-IsIndexed :
      (p : Peer) (w : Wire H)
      → lookup p.id w.sessions ≡ some p
      → IsIndexed w
      → IsIndexed (unregister_session p w).0
  unfolding unregister_session
  unregister_session-IsIndexed p w there h = record {
    is_hub = h.is_hub;
    leads = λ name q e. ground (
      arith,
      h.is_hub,
      h.leads name q,
      lookup-unindex_names p.stream_names w.stream_index name,
      lookup-remove p.id q.id w.sessions,
      same_bytes_iff p.id q.id,
    );
  }

  -- Every timely change of a hub keeps its index sound.
  change-IsIndexed :
      (c : Change H) (w : Wire H) → IsTimely c w → IsIndexed w → IsIndexed (change c w)
  unfolding change stream set_conn_flag
  change-IsIndexed (register p) w t h = register_session-IsIndexed p w t h
  change-IsIndexed (unregister p) w t h = unregister_session-IsIndexed p w t h
  change-IsIndexed (handle name f) w t h = record { is_hub = h.is_hub; leads = h.leads }
  change-IsIndexed (connect flag) w t h = record { is_hub = h.is_hub; leads = h.leads }
  change-IsIndexed shut w t h = record { is_hub = h.is_hub; leads = h.leads }

  run-IsIndexed :
      (cs : List (Change H)) (w : Wire H) → AreTimely cs w → IsIndexed w → IsIndexed (run cs w)
  unfolding run
  run-IsIndexed [] w t h = h
  run-IsIndexed (c ∷ cs) w t h = run-IsIndexed cs (change c w) t.1 (change-IsIndexed c w t.0 h)

  empty-IsIndexed : (w : Wire H) → w.hub_mode ≡ true → w.stream_index ≡ [] → IsIndexed w
  unfolding lookup
  empty-IsIndexed w hub none_yet = record {
    is_hub = hub;
    leads = λ n q e. absurd (let no : none ≡ some q = (ap (lookup n) (sym none_yet)) ∙ e in cc);
  }

  -- From a hub whose index is empty, after any timely changes, a session that is found by a name is
  -- one that is registered and offers that name.
  pub find_session_offers :
      (cs : List (Change H)) (w : Wire H) (name : Bytes) (p : Peer)
      → w.hub_mode ≡ true
      → w.stream_index ≡ []
      → AreTimely cs w
      → find_session name (run cs w) ≡ ok p
      → (session p.id (run cs w) ≡ ok p) × (has_name name p.stream_names ≡ true)
  unfolding find_session session
  find_session_offers cs w name p hub none_yet timely found =
      let sound : IsIndexed (run cs w) =
        run-IsIndexed cs w timely (empty-IsIndexed w hub none_yet) in
      ground (arith, sound.leads name p)

  -- A session that registers offers no name that is indexed already.
  abbrev pub IsApart : Change H → Wire H → Type 0
  IsApart (register p) w =
      (name : Bytes) → has_name name p.stream_names ≡ true → lookup name w.stream_index ≡ none
  IsApart _ w = Unit

  abbrev pub AreApart : List (Change H) → Wire H → Type 0
  AreApart [] w = Unit
  AreApart (c ∷ cs) w = IsApart c w × AreApart cs (change c w)

  -- Every name that a registered session offers is indexed, and leads to it.
  abbrev pub IsComplete : Wire H → Type 0
  IsComplete w =
      (name : Bytes) (p : Peer)
      → lookup p.id w.sessions ≡ some p
      → has_name name p.stream_names ≡ true
      → lookup name w.stream_index ≡ some p

  change-IsComplete :
      (c : Change H) (w : Wire H)
      → IsTimely c w
      → IsApart c w
      → IsIndexed w
      → IsComplete w
      → IsComplete (change c w)
  unfolding change register_session unregister_session stream set_conn_flag
  change-IsComplete (register p) w t a h k name q e n = ground (
    arith,
    h.is_hub,
    k name q,
    a name,
    lookup-index_names p.stream_names p w.stream_index name,
    lookup-insert p.id q.id p w.sessions,
    same_bytes_iff p.id q.id,
  )
  change-IsComplete (unregister p) w t a h k name q e n = ground (
    arith,
    h.is_hub,
    k name q,
    k name p,
    lookup-unindex_names p.stream_names w.stream_index name,
    lookup-remove p.id q.id w.sessions,
    same_bytes_iff p.id q.id,
  )
  change-IsComplete (handle name f) w t a h k name1 q e n = k name1 q e n
  change-IsComplete (connect flag) w t a h k name1 q e n = k name1 q e n
  change-IsComplete shut w t a h k name1 q e n = k name1 q e n

  run-IsComplete :
      (cs : List (Change H)) (w : Wire H)
      → AreTimely cs w
      → AreApart cs w
      → IsIndexed w
      → IsComplete w
      → IsComplete (run cs w)
  unfolding run
  run-IsComplete [] w t a h k = k
  run-IsComplete (c ∷ cs) w t a h k =
      run-IsComplete cs (change c w) t.1 a.1 (change-IsIndexed c w t.0 h)
        (change-IsComplete c w t.0 a.0 h k)

  -- From a hub with no session and an empty index, after any timely changes in which no session
  -- offers a name that another one has, and while the hub is open: a name leads to a session exactly
  -- when that session is registered and offers it.
  pub find_session_exact :
      (cs : List (Change H)) (w : Wire H) (name : Bytes) (p : Peer)
      → w.hub_mode ≡ true
      → w.stream_index ≡ []
      → w.sessions ≡ []
      → AreTimely cs w
      → AreApart cs w
      → (run cs w).closed ≡ false
      → (find_session name (run cs w) ≡ ok p)
        ↔ ((session p.id (run cs w) ≡ ok p) × (has_name name p.stream_names ≡ true))
  unfolding find_session session lookup
  find_session_exact cs w name p hub none_yet nobody timely apart is_open =
      let start : IsIndexed w = empty-IsIndexed w hub none_yet in
      let nothing : IsComplete w =
        λ n q e m. absurd (let no : none ≡ some q = ap (lookup q.id) (sym nobody) ∙ e in cc) in
      let all : IsComplete (run cs w) = run-IsComplete cs w timely apart start nothing in
      (
        find_session_offers cs w name p hub none_yet timely,
        λ r. ground (arith, all name p, is_open, length-lookup p.id (run cs w).sessions {v = p}),
      )
