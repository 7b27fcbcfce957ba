-- ===== src/Utils.antt =====
-- internal/utils/main.go.
pub mod Address
pub mod Credentials
pub mod Usage
use mmar.Prelude.Io.{Error, eof, unexpected_eof, err_closed, econnreset, deadline_exceeded}
use mmar.Prelude.Text.{split, join, to_lower}
use mmar.Prelude.{Bool, true, false, Bytes, [], ◌∷◌, Option, none, some, take, ◌≡◌}

unfoldable pub extract_subdomain : Bytes → Bytes
extract_subdomain host = to_lower (join b'.' (take 1 (split b'.' host)))

-- `errors.Is` of the five errors that mean that the connection is gone.
unfoldable pub network_error : Error → Bool
network_error eof = true
network_error unexpected_eof = true
network_error err_closed = true
network_error econnreset = true
network_error deadline_exceeded = true
network_error e = false

-- The environment is the result of looking the variable up.
unfoldable pub env_var_or_default : Option Bytes → Bytes → Bytes
env_var_or_default none fallback = fallback
env_var_or_default (some value) fallback = value
