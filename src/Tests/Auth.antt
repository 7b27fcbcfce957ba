-- ===== src/Tests/Auth.antt =====
-- internal/auth/main.go at a keys file with two keys.
use mmar.Prelude.Maps.{insert, lookup}
use mmar.Auth.{
  ApiKeyConfig, AuthManager, new_auth_manager, reload_api_keys, validate_token, token_required,
  valid, check_tunnel_limit, add_tunnel, remove_tunnel, tunnels_of, get_token_limit, key_table,
}
use mmar.Auth.Keys.{new_auth_manager-validate, reload_api_keys-tunnels}
use mmar.Auth.Limits.{
  WithinLimits, AtMost, add_tunnel-WithinLimits, remove_tunnel-WithinLimits,
  remove_tunnel-add_tunnel,
}
use mmar.Prelude.Decimal.{ℤ, pos, negsuc}
use mmar.Prelude.{◌≡◌, refl, arith, codes, List, [], ◌∷◌, none, some, false, true, count}

abbrev config : List ApiKeyConfig
config = record { key = codes "k"; limit = pos 1 } ∷ record { key = codes "m"; limit = pos 2 } ∷ []

abbrev keys : AuthManager
keys = record {
  api_keys = (codes "k", pos 1) ∷ (codes "m", pos 2) ∷ [];
  tunnels_per_key = [];
  config_file = codes "keys.json";
}

loaded : new_auth_manager (codes "keys.json") (some config) ≡ some keys
unfolding new_auth_manager key_table insert
loaded = refl

room : check_tunnel_limit keys (codes "k") ≡ false
unfolding check_tunnel_limit lookup
room = refl

full_test : check_tunnel_limit (add_tunnel keys (codes "k") (codes "a")) (codes "k") ≡ true
unfolding check_tunnel_limit add_tunnel lookup insert
full_test = refl

unknown_key_test : check_tunnel_limit keys (codes "z") ≡ true
unfolding check_tunnel_limit lookup
unknown_key_test = refl

AtMost-zero : (limit : ℤ) → AtMost 0 limit
AtMost-zero (pos limit) = omega arith
AtMost-zero (negsuc limit) = omega arith

empty-WithinLimits : WithinLimits keys
unfolding lookup
empty-WithinLimits token = AtMost-zero (get_token_limit keys token)

new_auth_manager-validate_example :
    (validate_token keys (codes "m") ≡ valid (pos 2))
    × (validate_token keys [] ≡ token_required)
    × (tunnels_of keys (codes "m") ≡ [])
new_auth_manager-validate_example =
    new_auth_manager-validate (codes "keys.json") config keys b'm' [] loaded

reload_api_keys-tunnels_test :
    (reload_api_keys none keys ≡ none)
    × ((am : AuthManager)
        → reload_api_keys (some config) keys ≡ some am
        → (tunnels_of am (codes "k") ≡ []) × (get_token_limit am (codes "k") ≡ pos 1))
unfolding lookup
reload_api_keys-tunnels_test =
    reload_api_keys-tunnels keys b'k' (codes "eys.json") config (codes "k") refl

add_tunnel-WithinLimits_test : WithinLimits (add_tunnel keys (codes "k") (codes "a"))
add_tunnel-WithinLimits_test =
    add_tunnel-WithinLimits keys (codes "k") (codes "a") room empty-WithinLimits

remove_tunnel-WithinLimits_test :
    WithinLimits (remove_tunnel (add_tunnel keys (codes "k") (codes "a")) (codes "k") (codes "a"))
remove_tunnel-WithinLimits_test =
    remove_tunnel-WithinLimits (add_tunnel keys (codes "k") (codes "a")) (codes "k") (codes "a")
      (add_tunnel-WithinLimits keys (codes "k") (codes "a") room empty-WithinLimits)

remove_tunnel-add_tunnel_test :
    tunnels_of
      (remove_tunnel (add_tunnel keys (codes "k") (codes "a")) (codes "k") (codes "a"))
      (codes "k")
    ≡ []
unfolding count lookup
remove_tunnel-add_tunnel_test =
    remove_tunnel-add_tunnel keys (codes "k") (codes "a") (codes "k") refl
