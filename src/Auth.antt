-- ===== src/Auth.antt =====
-- internal/auth/main.go: API keys with a limit of tunnels each, and the tunnels open under each.
-- The methods take the manager's lock for their whole body, so each is one step. The file system
-- and the JSON decoder come in as the result of reading the keys file: the entries in their order,
-- or an error.
pub mod Keys
pub mod Limits
use mmar.Prelude.Decimal.{ℤ, pos, negsuc}
use mmar.Prelude.Maps.{Map, lookup, insert}
use mmar.Prelude.{
  ℕ, ◌≡◌, Bool, true, false, Bytes, List, [], ◌∷◌, ◌++◌, Option, none, some, bytes_eq, erase, leb,
  length,
}

pub record ApiKeyConfig : Type 0 where
  pub key : Bytes
  pub limit : ℤ

pub record AuthManager : Type 0 where
  pub api_keys : Map Bytes ℤ
  pub tunnels_per_key : Map Bytes (List Bytes)
  pub config_file : Bytes

-- `for _, entry := range config { m[entry.Key] = entry.Limit }`.
unfoldable pub key_table : List ApiKeyConfig → Map Bytes ℤ → Map Bytes ℤ
key_table [] m = m
key_table (c ∷ cs) m = key_table cs (insert c.key c.limit m)

-- An error leaves the manager as it was. The argument is what `os.ReadFile` and `json.Unmarshal`
-- give for the manager's file.
load_from : Bytes → Option (List ApiKeyConfig) → AuthManager → Option AuthManager
load_from [] decoded am = none
load_from (c ∷ file) none am = none
load_from (c ∷ file) (some config) am = some (record am { api_keys = key_table config [] })

unfoldable pub load_api_keys : Option (List ApiKeyConfig) → AuthManager → Option AuthManager
unfolding load_from
load_api_keys decoded am = load_from am.config_file decoded am

unfoldable pub new_auth_manager : Bytes → Option (List ApiKeyConfig) → Option AuthManager
unfolding load_api_keys
new_auth_manager config_file decoded =
    load_api_keys decoded
      (record { api_keys = []; tunnels_per_key = []; config_file = config_file })

unfoldable pub reload_api_keys : Option (List ApiKeyConfig) → AuthManager → Option AuthManager
reload_api_keys = load_api_keys

-- `ErrAuthTokenRequired`, `ErrAuthTokenInvalid`, or the limit of a valid token.
pub data Validity : Type 0 where
  valid : ℤ → Validity
  token_required token_invalid : Validity

known : Option ℤ → Validity
known none = token_invalid
known (some limit) = valid limit

unfoldable pub validate_token : AuthManager → Bytes → Validity
unfolding known
validate_token am [] = token_required
validate_token am (c ∷ token) = known (lookup (c ∷ token) am.api_keys)

-- Reading a missing key gives the zero value.
abbrev pub limit_or_zero : Option ℤ → ℤ
limit_or_zero none = pos 0
limit_or_zero (some limit) = limit

abbrev pub tunnels_or_nil : Option (List Bytes) → List Bytes
tunnels_or_nil none = []
tunnels_or_nil (some ids) = ids

-- `n >= limit`.
abbrev pub reaches : ℕ → ℤ → Bool
reaches n (pos limit) = leb limit n
reaches n (negsuc limit) = true

-- The tunnels open under a token.
abbrev pub tunnels_of : AuthManager → Bytes → List Bytes
tunnels_of am token = tunnels_or_nil (lookup token am.tunnels_per_key)

unfoldable pub check_tunnel_limit : AuthManager → Bytes → Bool
check_tunnel_limit am token =
    reaches (length (tunnels_of am token)) (limit_or_zero (lookup token am.api_keys))

unfoldable pub add_tunnel : AuthManager → Bytes → Bytes → AuthManager
add_tunnel am token id = record am {
  tunnels_per_key = insert token (tunnels_of am token ++ id ∷ []) am.tunnels_per_key;
}

-- The loop takes out the first copy and stops.
remove_from : AuthManager → Bytes → Bytes → Option (List Bytes) → AuthManager
remove_from am token id none = am
remove_from am token id (some tunnels) = record am {
  tunnels_per_key = insert token (erase id tunnels) am.tunnels_per_key;
}

unfoldable pub remove_tunnel : AuthManager → Bytes → Bytes → AuthManager
unfolding remove_from
remove_tunnel am token id = remove_from am token id (lookup token am.tunnels_per_key)

unfoldable pub get_tunnel_count : AuthManager → Bytes → ℕ
get_tunnel_count am token = length (tunnels_of am token)

unfoldable pub get_token_limit : AuthManager → Bytes → ℤ
get_token_limit am token = limit_or_zero (lookup token am.api_keys)

-- A copy of the table, key by key.
copy_keys : Map Bytes ℤ → Map Bytes ℤ → Map Bytes ℤ
copy_keys [] result = result
copy_keys ((token, limit) ∷ rest) result = copy_keys rest (insert token limit result)

unfoldable pub get_all_tokens : AuthManager → Map Bytes ℤ
unfolding copy_keys
get_all_tokens am = copy_keys am.api_keys []
