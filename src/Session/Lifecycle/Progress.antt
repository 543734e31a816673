-- ===== src/Session/Lifecycle/Progress.antt =====
-- The call that meets the goroutine can always go on to its return.
use go_wirenet.Base.{ℕ, ◌≤◌, ◌≡◌, true, false, Bytes, length}
use go_wirenet.Base.Assoc.{Assoc, IsMap}
use go_wirenet.Go
use go_wirenet.Stream.Defs.{Stream}
use go_wirenet.Session.State.{Session}
use go_wirenet.Session.Lifecycle.{System, Reach}
use go_wirenet.Session.Lifecycle.Invariant.{is_returned}

-- The counter never exceeds the number of registered streams, also where a stream was closed twice.
pub record IsCovered (s : Session) : Type 0 where
  pub is_map : IsMap s.streams
  pub few : s.active_streams ≤ length s.streams

-- From `s` the call `i` can return with an answer, by steps that are its own and the goroutine's.
abbrev pub CanReturn : System → ℕ → Type 0
CanReturn s i = (t : System) × Reach s t × (is_returned (t.calls i) ≡ true)

-- No transfer holds the lock of a stream.
abbrev pub AreFree : System → Type 0
AreFree s = (k : Bytes) → s.held k ≡ false
