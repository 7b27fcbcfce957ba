-- ===== src/Server/Registry/Keyed.antt =====
-- internal/server/main.go: every client has a token that the API keys allow.
use mathlib.Core.Path.{subst}
use mmar.Auth.{AuthManager, validate_token, add_tunnel, remove_tunnel}
use mmar.Prelude.Decimal.{ℤ}
use mmar.Prelude.Maps.{Map, lookup, insert, lookup-insert, lookup-delete}
use mmar.Prelude.{
  ℕ, ◌≡◌, refl, ap, sym, ◌∙◌, Bytes, [], ◌∷◌, Option, none, some, arith, bytes_eq, ◌==◌, inl, inr,
  Bool-cases, Option-cases,
}
use mmar.Protocol.Conn.{Tunnel}
use mmar.Server.Registry.After.{Entered, new_client_tunnel-after}
use mmar.Server.Registry.Closing.{Removed}
use mmar.Server.Registry.{Creation, authenticate, auth_add, auth_remove, new_client_tunnel}
use mmar.Server.State.{ClientTunnel, MmarServer, running}

-- A token that may have tunnels: a key with a limit, or none at all where there is no
-- authentication.
abbrev pub HasKey : Option AuthManager → Bytes → Type 0
HasKey none token = token ≡ []
HasKey (some am) token = (limit : ℤ) × (lookup token am.api_keys ≡ some limit)

abbrev pub Keyed : Map Bytes ClientTunnel → Option AuthManager → Type 0
Keyed clients auth =
    (id : Bytes) (ct : ClientTunnel) → lookup id clients ≡ some ct → HasKey auth ct.auth_token

pub authenticate-HasKey :
    (o : Option AuthManager) (token : Bytes) → authenticate o token ≡ none → HasKey o token
unfolding authenticate validate_token
authenticate-HasKey none [] h = refl
authenticate-HasKey none (c ∷ token) h = absurd (cc)
authenticate-HasKey (some am) [] h = absurd (cc)
authenticate-HasKey (some am) (c ∷ token) h = elim (Option-cases (lookup (c ∷ token) am.api_keys)) [
  | inl unknown ↦ absurd (ground (arith, unknown, h))
  | inr found ↦ found
]

auth_add-HasKey :
    (token id other : Bytes) (o : Option AuthManager)
    → HasKey o other
    → HasKey (auth_add token id o) other
unfolding auth_add add_tunnel
auth_add-HasKey token id other none h = h
auth_add-HasKey [] id other (some am) h = h
auth_add-HasKey (c ∷ token) id other (some am) h = h

remove_tunnel-api_keys :
    (am : AuthManager) (token id : Bytes) → (remove_tunnel am token id).api_keys ≡ am.api_keys
unfolding remove_tunnel
remove_tunnel-api_keys am token id = ground arith

auth_remove-HasKey :
    (token id other : Bytes) (o : Option AuthManager)
    → HasKey o other
    → HasKey (auth_remove token id o) other
unfolding auth_remove
auth_remove-HasKey token id other none h = h
auth_remove-HasKey [] id other (some am) h = h
auth_remove-HasKey (c ∷ token) id other (some am) h = rw remove_tunnel-api_keys h

pub new_client_tunnel-Keyed :
    (draws : ℕ → ℕ → ℕ) (t : Tunnel) (subdomain token : Bytes) (s : MmarServer) (c : Creation)
    (s' : MmarServer)
    → Keyed s.clients s.auth_manager
    → new_client_tunnel draws t subdomain token s ≡ running (c, s')
    → Keyed s'.clients s'.auth_manager
new_client_tunnel-Keyed draws t subdomain token s c s' keyed h =
    elim (new_client_tunnel-after draws t subdomain token s c s' h) [
      | inl (_, same) ↦ λ id ct found.
          subst (λ o. HasKey o ct.auth_token) (sym same.auth)
            (keyed id ct (rw same.clients at found))
      | inr (e, _) ↦ λ id ct found.
          subst (λ o. HasKey o ct.auth_token) (sym e.entered.auth)
            (auth_add-HasKey e.made.auth_token e.made.id ct.auth_token s.auth_manager
              (entered-HasKey e id ct (rw e.entered.clients at found)))
    ]
  where
    entered-HasKey :
        (e : Entered draws t subdomain token s s') (id : Bytes) (ct : ClientTunnel)
        → lookup id (insert e.made.id e.made s.clients) ≡ some ct
        → HasKey s.auth_manager ct.auth_token
    entered-HasKey e id ct found = elim (Bool-cases (e.made.id == id)) [
      | inl same ↦
          let this : e.made ≡ ct =
            ground (arith, lookup-insert e.made.id id e.made s.clients, same, found) in
          let kept : ct.auth_token ≡ token = rw (← this) e.token_kept in
          rw kept (authenticate-HasKey s.auth_manager token e.passed)
      | inr other ↦
          keyed id ct (ground (arith, lookup-insert e.made.id id e.made s.clients, other, found))
    ]

pub Removed-Keyed :
    {ct : ClientTunnel} {s s' : MmarServer}
    → Removed ct s s'
    → Keyed s.clients s.auth_manager
    → Keyed s'.clients s'.auth_manager
Removed-Keyed {ct} {s} p keyed id other found =
    let there = rw p.clients at found in
    subst (λ o. HasKey o other.auth_token) (sym p.auth)
      (auth_remove-HasKey ct.auth_token ct.id other.auth_token s.auth_manager
        (keyed id other (ground (arith, lookup-delete ct.id id s.clients, there))))

-- The keys that there are, if there is authentication.
abbrev pub keys_of : Option AuthManager → Option (Map Bytes ℤ)
keys_of none = none
keys_of (some am) = some am.api_keys

pub HasKey-keys_of :
    (o other : Option AuthManager) (token : Bytes)
    → keys_of o ≡ keys_of other
    → HasKey o token
    → HasKey other token
HasKey-keys_of none none token e h = h
HasKey-keys_of none (some am) token e h = absurd (cc)
HasKey-keys_of (some am) none token e h = absurd (cc)
HasKey-keys_of (some am) (some other) token e (limit, h) =
    let same : am.api_keys ≡ other.api_keys = cc in (limit, rw same at h)

pub keys_of-auth_add :
    (token id : Bytes) (o : Option AuthManager) → keys_of (auth_add token id o) ≡ keys_of o
unfolding auth_add add_tunnel
keys_of-auth_add token id none = refl
keys_of-auth_add [] id (some am) = refl
keys_of-auth_add (c ∷ token) id (some am) = refl

pub keys_of-auth_remove :
    (token id : Bytes) (o : Option AuthManager) → keys_of (auth_remove token id o) ≡ keys_of o
unfolding auth_remove
keys_of-auth_remove token id none = refl
keys_of-auth_remove [] id (some am) = refl
keys_of-auth_remove (c ∷ token) id (some am) = rw remove_tunnel-api_keys refl

pub new_client_tunnel-keys_of :
    (draws : ℕ → ℕ → ℕ) (t : Tunnel) (subdomain token : Bytes) (s : MmarServer) (c : Creation)
    (s' : MmarServer)
    → new_client_tunnel draws t subdomain token s ≡ running (c, s')
    → keys_of s'.auth_manager ≡ keys_of s.auth_manager
new_client_tunnel-keys_of draws t subdomain token s c s' h =
    elim (new_client_tunnel-after draws t subdomain token s c s' h) [
      | inl (_, same) ↦ ap keys_of same.auth
      | inr (e, _) ↦
          ap keys_of e.entered.auth ∙ keys_of-auth_add e.made.auth_token e.made.id s.auth_manager
    ]

pub Removed-keys_of :
    {ct : ClientTunnel} {s s' : MmarServer}
    → Removed ct s s'
    → keys_of s'.auth_manager ≡ keys_of s.auth_manager
Removed-keys_of {ct} {s} p =
    ap keys_of p.auth ∙ keys_of-auth_remove ct.auth_token ct.id s.auth_manager
