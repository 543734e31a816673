-- ===== src/Tests/Settings.antt =====
-- Constructors with concrete options.
use go_wirenet.Base.{ℕ, ◌≡◌, false, true, none, some, [], ◌∷◌, text, arith, List, Option, Bytes}
use go_wirenet.Go.{ok}
use go_wirenet.Wire.State.{Wire, client_side, server_side, mount, hub, join}
use go_wirenet.Wire.Options.{Setting, retry_max, keep_alive, identification}
use go_wirenet.Wire.Fresh.{IsFresh, options, constructors-IsFresh}

abbrev local : Bytes
local = text ":8989"

abbrev settings : List (Option Setting)
settings =
    none
    ∷ some (retry_max 3)
    ∷ some (identification (text "id") (text "token"))
    ∷ some (keep_alive false)
    ∷ []

settings-IsFresh :
    ((w : Wire ℕ) × (mount local (options settings) ≡ ok w) × IsFresh local server_side false w)
    × ((w : Wire ℕ) × (join local (options settings) ≡ ok w) × IsFresh local client_side false w)
    × ((w : Wire ℕ) × (hub local (options settings) ≡ ok w) × IsFresh local server_side true w)
settings-IsFresh = constructors-IsFresh {H = ℕ} local settings (omega arith)
