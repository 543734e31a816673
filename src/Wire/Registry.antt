-- ===== src/Wire/Registry.antt =====
-- The wire's maps and flags (wirenet.go). Each operation runs under the
-- wire's lock, so it is one step.
use go_wirenet.Base.{
  Bool, not, ◌&&◌, ◌||◌, Option, none, some, List, [], ◌∷◌, Bytes, map, length, ◌==◌, if◌then◌else◌,
}
use go_wirenet.Base.Assoc.{Assoc, lookup, insert, remove}
use go_wirenet.Go.{Error, session_not_found, session_closed, stream_handler_not_found, Go, ok, err}
use go_wirenet.Wire.State.{Peer, Wire, is_client_side}

-- The value, or the error that stands for its absence.
abbrev pub or_error {ℓ} : {A : Type ℓ} → Error → Option A → Go A
or_error e none = err e
or_error e (some a) = ok a

-- `for _, streamName := range s.StreamNames() { w.streamIndex[streamName] = s }`
unfoldable pub index_names : List Bytes → Peer → Assoc Peer → Assoc Peer
index_names [] p m = m
index_names (n ∷ ns) p m = index_names ns p (insert n p m)

unfoldable pub unindex_names : List Bytes → Assoc Peer → Assoc Peer
unindex_names [] m = m
unindex_names (n ∷ ns) m = unindex_names ns (remove n m)

module _ {H : Type 0} where
  -- `Session(sid)`
  unfoldable pub session : Bytes → Wire H → Go Peer
  session sid w = or_error session_not_found (lookup sid w.sessions)

  -- `Sessions()`
  unfoldable pub sessions : Wire H → Assoc Peer
  sessions w = w.sessions

  -- `Stream(name, h)`: an old handler is replaced.
  unfoldable pub stream : Bytes → H → Wire H → Wire H
  stream name h w = record w { handlers = insert name h w.handlers }

  unfoldable pub find_handler : Bytes → Wire H → Go H
  find_handler name w = or_error stream_handler_not_found (lookup name w.handlers)

  unfoldable pub find_session : Bytes → Wire H → Go Peer
  find_session name w =
      if (length w.sessions == 0) || w.closed
      then err session_closed
      else or_error session_not_found (lookup name w.stream_index)

  unfoldable pub set_conn_flag : Bool → Wire H → Wire H
  set_conn_flag flag w = record w { conn = flag }

  unfoldable pub register_session : Peer → Wire H → Wire H
  unfolding index_names
  register_session p w = record w {
    sessions = insert p.id p w.sessions;
    stream_index =
        if w.hub_mode then index_names p.stream_names p w.stream_index else w.stream_index;
  }

  -- The new wire, and whether `unregisterSession` goes on to `w.close()`.
  unfoldable pub unregister_session : Peer → Wire H → Wire H × Bool
  unfolding unindex_names is_client_side
  unregister_session p w =
      let left = remove p.id w.sessions in
      (
        record w {
          sessions = left;
          stream_index =
              if w.hub_mode then unindex_names p.stream_names w.stream_index else w.stream_index;
        },
        is_client_side w.role && ((length left == 0) && not w.closed),
      )

  -- `localStreamNames(w.handlers)`, in the order of the association list; Go's map has none.
  unfoldable pub local_stream_names : Assoc H → List Bytes
  local_stream_names m = map (λ e. e.0) m
