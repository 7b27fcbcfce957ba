-- ===== src/Server/Registry/Tokens.antt =====
-- internal/server/main.go and internal/auth/main.go: whom `newClientTunnel` lets in, and how the
-- tunnels under a token are counted.
use mmar.Auth.{
  AuthManager, validate_token, check_tunnel_limit, add_tunnel, remove_tunnel, reaches, tunnels_of,
}
use mmar.Auth.Limits.{tunnels_of-add, tunnels_of-remove}
use mmar.Prelude.Decimal.{ℤ, pos, negsuc}
use mmar.Prelude.Maps.{lookup}
use mmar.Prelude.{
  ℕ, ◌<◌, ◌≡◌, ◌≢◌, refl, Bytes, List, [], ◌∷◌, ◌++◌, Option, none, some, arith, length, erase,
  false, bytes_eq, ◌==◌, if◌then◌else◌, Option-cases, inl, inr,
}
use mmar.Server.Registry.{auth_add, auth_remove, authenticate}

abbrev pub Below : ℕ → ℤ → Type 0
Below n (pos limit) = n < limit
Below n (negsuc limit) = ⊥

-- Without authentication there is no token; with it the token is one of the table's, and has fewer
-- tunnels than the table allows it.
abbrev pub Admits : Option AuthManager → Bytes → Type 0
Admits none token = token ≡ []
Admits (some am) token =
    (token ≢ [])
    × ((limit : ℤ) × (lookup token am.api_keys ≡ some limit)
        × Below (length (tunnels_of am token)) limit)

-- The tunnels under a token change, and nothing else does; without authentication, and without a
-- token, nothing changes.
abbrev pub Counted :
    (List Bytes → List Bytes) → Option AuthManager → Bytes → Option AuthManager → Type 0
Counted f none token after = after ≡ none
Counted f (some am) [] after = after ≡ some am
Counted f (some am) (c ∷ token) after =
    (am' : AuthManager) × (after ≡ some am')
    × (am'.api_keys ≡ am.api_keys)
    × ((other : Bytes)
        → tunnels_of am' other
          ≡ (if (c ∷ token) == other then f (tunnels_of am (c ∷ token)) else tunnels_of am other))

pub auth_add-Counted :
    (o : Option AuthManager) (token id : Bytes)
    → Counted (λ ids. ids ++ id ∷ []) o token (auth_add token id o)
unfolding auth_add add_tunnel
auth_add-Counted none token id = refl
auth_add-Counted (some am) [] id = refl
auth_add-Counted (some am) (c ∷ token) id =
    (add_tunnel am (c ∷ token) id, refl, refl, tunnels_of-add am (c ∷ token) id)

remove_tunnel-keys :
    (am : AuthManager) (token id : Bytes) → (remove_tunnel am token id).api_keys ≡ am.api_keys
unfolding remove_tunnel
remove_tunnel-keys am token id = ground arith

pub auth_remove-Counted :
    (o : Option AuthManager) (token id : Bytes)
    → Counted (erase id) o token (auth_remove token id o)
unfolding auth_remove
auth_remove-Counted none token id = refl
auth_remove-Counted (some am) [] id = refl
auth_remove-Counted (some am) (c ∷ token) id = (
  remove_tunnel am (c ∷ token) id,
  refl,
  remove_tunnel-keys am (c ∷ token) id,
  tunnels_of-remove am (c ∷ token) id,
)

reaches-Below : (n : ℕ) (limit : ℤ) → reaches n limit ≡ false → Below n limit
reaches-Below n (pos limit) h = ground (arith, h)
reaches-Below n (negsuc limit) h = absurd (cc)

Below-reaches : (n : ℕ) (limit : ℤ) → Below n limit → reaches n limit ≡ false
Below-reaches n (pos limit) h = ground (arith, h)
Below-reaches n (negsuc limit) h = absurd h

-- A token that passes is admitted.
pub authenticate-Admits :
    (o : Option AuthManager) (token : Bytes) → authenticate o token ≡ none → Admits o token
unfolding authenticate validate_token check_tunnel_limit
authenticate-Admits none [] h = refl
authenticate-Admits none (c ∷ token) h = absurd (cc)
authenticate-Admits (some am) [] h = absurd (ground (arith, h))
authenticate-Admits (some am) (c ∷ token) h = elim (Option-cases (lookup (c ∷ token) am.api_keys)) [
  | inl e ↦ absurd (ground (arith, h, e))
  | inr (limit, e) ↦
      let room : reaches (length (tunnels_of am (c ∷ token))) limit ≡ false =
        ground (arith, h, e) in
      (λ z. absurd (cc), (limit, e, reaches-Below _ limit room))
]

-- A token that is admitted passes.
pub Admits-authenticate :
    (o : Option AuthManager) (token : Bytes) → Admits o token → authenticate o token ≡ none
unfolding authenticate validate_token check_tunnel_limit
Admits-authenticate none [] h = refl
Admits-authenticate none (c ∷ token) h = absurd (cc)
Admits-authenticate (some am) [] h = absurd (h.0 refl)
Admits-authenticate (some am) (c ∷ token) (named, (limit, e, below)) =
    let room = Below-reaches _ limit below in ground (arith, e, room)
