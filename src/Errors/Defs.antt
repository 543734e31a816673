-- ===== src/Errors/Defs.antt =====
-- OpError and ShutdownError (errors.go). Addresses and errors are known by their texts.
use go_wirenet.Base.{
  Bool, Option, none, some, List, [], ◌∷◌, ◌++◌, Bytes, length, text, same_bytes, ltb,
  if◌then◌else◌,
}
use go_wirenet.Go.{Error, message}

-- `session_id` is the id's `String()`.
pub record OpError : Type 0 where
  pub op : Bytes
  pub session_id : Bytes
  pub local_addr : Option Bytes
  pub remote_addr : Option Bytes
  pub identification : Bytes
  pub cause : Option Error

abbrev pub nil_id : Bytes
nil_id = text "00000000-0000-0000-0000-000000000000"

abbrev pub or_nothing {ℓ} : {A : Type ℓ} → (A → Bytes) → Option A → Bytes
or_nothing f none = []
or_nothing f (some a) = f a

-- Each part with its separator, or nothing.
unfoldable pub op_error_parts : OpError → Bytes
op_error_parts e =
    e.op
    ++ ((if same_bytes e.session_id nil_id then [] else text " sid-" ++ e.session_id)
        ++ ((if ltb 0 (length e.identification) then text " id-" ++ e.identification else [])
            ++ (or_nothing (λ a. text " " ++ a) e.local_addr
                ++ (or_nothing (λ a. text "->" ++ a) e.remote_addr
                    ++ or_nothing (λ x. text ": " ++ message x) e.cause))))

abbrev or_nil_text : Bytes → Bytes
or_nil_text [] = text "<nil>"
or_nil_text s = s

-- `none` is the nil pointer.
unfoldable pub op_error_text : Option OpError → Bytes
unfolding op_error_parts
op_error_text none = text "<nil>"
op_error_text (some e) = or_nil_text (op_error_parts e)

pub record ShutdownError : Type 0 where
  pub errors : List Error

abbrev pub new_shutdown_error : ShutdownError
new_shutdown_error = record { errors = [] }

unfoldable pub add : ShutdownError → Error → ShutdownError
add e er = record { errors = e.errors ++ er ∷ [] }

unfoldable pub is_filled : ShutdownError → Bool
is_filled e = ltb 0 (length e.errors)

unfoldable pub error_lines : List Error → Bytes
error_lines [] = []
error_lines (e ∷ es) = (text "session error " ++ (message e ++ 10 ∷ [])) ++ error_lines es

unfoldable pub shutdown_error_text : List Error → Bytes
unfolding error_lines
shutdown_error_text (e ∷ []) = message e
shutdown_error_text es = error_lines es
