-- ===== src/Auth/Keys.antt =====
-- internal/auth/main.go: which tokens a keys file makes valid.
use mmar.Auth.{
  ApiKeyConfig, AuthManager, key_table, load_api_keys, new_auth_manager, validate_token, Validity,
  valid, token_required, token_invalid, tunnels_of, reload_api_keys, get_token_limit, limit_or_zero,
}
use mmar.Prelude.Decimal.{ℤ}
use mmar.Prelude.Maps.{Map, lookup, lookup-insert}
use mmar.Prelude.{
  ℕ, ◌≡◌, refl, Bytes, List, [], ◌∷◌, Option, none, some, arith, bytes_eq, ◌==◌, if◌then◌else◌,
}

-- The limit that the last entry of a key gives it.
abbrev pub last_limit : Bytes → List ApiKeyConfig → Option ℤ → Option ℤ
last_limit k [] found = found
last_limit k (c ∷ cs) found = last_limit k cs (if c.key == k then some c.limit else found)

lookup-key_table :
    (k : Bytes) (config : List ApiKeyConfig) (m : Map Bytes ℤ)
    → lookup k (key_table config m) ≡ last_limit k config (lookup k m)
unfolding key_table
lookup-key_table k [] m = refl
lookup-key_table k (c ∷ cs) m = rw (lookup-key_table k cs, lookup-insert)

-- What the validity of a token is, by the keys file.
abbrev pub validity_by : Option ℤ → Validity
validity_by none = token_invalid
validity_by (some limit) = valid limit

-- A server that starts with a keys file that can be read takes exactly the tokens that the file
-- lists, each with the limit of its last entry, and no empty token, also when one is listed. It
-- starts with no tunnel under any token.
pub new_auth_manager-validate :
    (file : Bytes) (config : List ApiKeyConfig) (am : AuthManager) (c : ℕ) (token : Bytes)
    → new_auth_manager file (some config) ≡ some am
    → (validate_token am (c ∷ token) ≡ validity_by (last_limit (c ∷ token) config none))
      × (validate_token am [] ≡ token_required)
      × (tunnels_of am (c ∷ token) ≡ [])
unfolding new_auth_manager validate_token lookup
new_auth_manager-validate [] config am c token h = absurd (ground arith)
new_auth_manager-validate (f ∷ file) config am c token h =
    (ground (arith, lookup-key_table (c ∷ token) config []), refl, ground arith)

-- Reading the file again replaces the keys and keeps every tunnel that is open; when the file
-- cannot be read or decoded nothing is replaced.
pub reload_api_keys-tunnels :
    (am : AuthManager) (f : ℕ) (file : Bytes) (config : List ApiKeyConfig) (token : Bytes)
    → am.config_file ≡ f ∷ file
    → (reload_api_keys none am ≡ none)
      × ((am' : AuthManager)
          → reload_api_keys (some config) am ≡ some am'
          → (tunnels_of am' token ≡ tunnels_of am token)
            × (get_token_limit am' token ≡ limit_or_zero (last_limit token config none)))
unfolding reload_api_keys load_api_keys get_token_limit lookup
reload_api_keys-tunnels am f file config token e =
    (rw e, λ am' h. ground (arith, lookup-key_table token config []))
