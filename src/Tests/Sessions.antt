-- ===== src/Tests/Sessions.antt =====
-- Sessions with concrete streams.
use go_wirenet.Base.{refl, false, [], ◌∷◌, Bytes, same_bytes}
use go_wirenet.Base.Assoc.{lookup}
use go_wirenet.Stream.Defs.{Stream}
use go_wirenet.Session.State.{Session}
use go_wirenet.Session.Counting.{Counts}

abbrev pub stream_of : Bytes → Stream
stream_of id = record { id = id; name = []; closed = false; buf = []; hdr = [] }

abbrev pub busy : Session
busy = record {
  id = [];
  identification = [];
  stream_names = [];
  closed = false;
  active_streams = 2;
  streams = (1 ∷ [], stream_of (1 ∷ [])) ∷ (2 ∷ [], stream_of (2 ∷ [])) ∷ [];
}

pub busy-Counts : Counts busy
unfolding lookup same_bytes
busy-Counts = record { is_map = (refl, (refl, tt)); counted = refl }
