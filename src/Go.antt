-- ===== src/Go.antt =====
-- What Go gives the program: sentinel errors (errors.go and package io), a call's outcome, and calls
-- that change a state. A Go function that returns `(v, err)` with `v` unused on an error returns
-- `ok v` or `err e`; a run-time panic is `panic`, and a loop whose fuel ran out is `stuck`.
use go_wirenet.Base.{Bool, true, false, Option, none, some, Bytes, text}

pub data Error : Type 0 where
  eof short_buffer short_write unexpected_eof : Error
  stream_closed stream_handler_not_found session_not_found : Error
  wire_closed addr_empty session_closed unknown_certificate_name : Error
  -- an error made by `errors.New`, or by a library, with its text
  other : Bytes → Error

-- `err.Error()`
unfoldable pub message : Error → Bytes
message eof = text "EOF"
message short_buffer = text "short buffer"
message short_write = text "short write"
message unexpected_eof = text "unexpected EOF"
message stream_closed = text "wirenet: read/write on closed stream"
message stream_handler_not_found = text "wirenet: stream handler not found"
message session_not_found = text "wirenet: session not found"
message wire_closed = text "wirenet: wire closed"
message addr_empty = text "wirenet: listener address is empty"
message session_closed = text "wirenet: session closed"
message unknown_certificate_name = text "wirenet: unknown certificate name"
message (other t) = t

-- `err == io.EOF`
abbrev pub is_eof : Error → Bool
is_eof eof = true
is_eof _ = false

-- `err == ErrSessionNotFound`
abbrev pub is_session_not_found : Error → Bool
is_session_not_found session_not_found = true
is_session_not_found _ = false

-- `err == ErrSessionClosed`
abbrev pub is_session_closed : Error → Bool
is_session_closed session_closed = true
is_session_closed _ = false

pub data Go {ℓ} (A : Type ℓ) : Type ℓ where
  ok : A → Go A
  err : Error → Go A
  panic : Go A
  stuck : Go A

-- A call that changes the state `S`; what it changed before it failed stays changed.
abbrev pub M {ℓ} : Type 0 → Type ℓ → Type ℓ
M S A = S → Go A × S

abbrev pub pure {ℓ} : {S : Type 0} {A : Type ℓ} → A → M S A
pure a s = (ok a, s)

abbrev pub throw {ℓ} : {S : Type 0} {A : Type ℓ} → Error → M S A
throw e s = (err e, s)

abbrev pub continue {ℓ κ} : {S : Type 0} {A : Type ℓ} {B : Type κ} → Go A → (A → M S B) → M S B
continue (ok a) f s = f a s
continue (err e) f s = (err e, s)
continue panic f s = (panic, s)
continue stuck f s = (stuck, s)

infixl 5 ◌>>=◌ ◌>>◌
abbrev pub ◌>>=◌ {ℓ κ} : {S : Type 0} {A : Type ℓ} {B : Type κ} → M S A → (A → M S B) → M S B
◌>>=◌ m f s = continue (m s).0 f (m s).1

abbrev pub ◌>>◌ {ℓ κ} : {S : Type 0} {A : Type ℓ} {B : Type κ} → M S A → M S B → M S B
m >> k = m >>= λ _. k

-- An expression that panics where it has no value.
abbrev pub or_panic {ℓ} : {S : Type 0} {A : Type ℓ} → Option A → M S A
or_panic none s = (panic, s)
or_panic (some a) s = (ok a, s)

-- A call that gives the caller its error as a value.
abbrev pub or_throw {ℓ} : {S : Type 0} {A : Type ℓ} → Option Error → A → M S A
or_throw none a s = (ok a, s)
or_throw (some e) a s = (err e, s)

-- A call that changes nothing.
abbrev pub lift {ℓ} : {S : Type 0} {A : Type ℓ} → Go A → M S A
lift g s = (g, s)

-- A call that comes to an end, with no panic: an error, or a value of which `P` holds.
abbrev pub Ensures {ℓ} : {A : Type ℓ} → (A → Type 0) → Go A → Type 0
Ensures P (ok a) = P a
Ensures P (err e) = Unit
Ensures P panic = ⊥
Ensures P stuck = ⊥

continue-Ensures {ℓ κ} :
    {S : Type 0} {A : Type ℓ} {B : Type κ} (P : A → Type 0) (Q : B → Type 0) (g : Go A)
    (f : A → M S B) (s : S)
    → Ensures P g
    → ((a : A) (s' : S) → P a → Ensures Q (f a s').0)
    → Ensures Q (continue g f s).0
continue-Ensures P Q (ok a) f s h k = k a s h
continue-Ensures P Q (err e) f s h k = tt
continue-Ensures P Q panic f s h k = h
continue-Ensures P Q stuck f s h k = h

-- A chain of calls comes to an end if each link does.
pub >>=-Ensures {ℓ κ} :
    {S : Type 0} {A : Type ℓ} {B : Type κ} (P : A → Type 0) (Q : B → Type 0) (m : M S A)
    (f : A → M S B) (s : S)
    → Ensures P (m s).0
    → ((a : A) (s' : S) → P a → Ensures Q (f a s').0)
    → Ensures Q ((m >>= f) s).0
>>=-Ensures P Q m f s h k = continue-Ensures P Q (m s).0 f (m s).1 h k
