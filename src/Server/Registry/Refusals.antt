-- ===== src/Server/Registry/Refusals.antt =====
-- internal/server/main.go: the messages by which `newClientTunnel` turns a token or a name down.
use mmar.Auth.{AuthManager, Validity, valid, token_required, token_invalid, validate_token}
use mmar.Prelude.Maps.{Map, lookup}
use mmar.Prelude.{
  ℕ, ◌≡◌, Bytes, [], ◌∷◌, Option, none, some, arith, bytes_eq, ◌⊎◌, inl, inr, Bool-cases,
}
use mmar.Protocol.Types
use mmar.Server.Names.{is_valid_subdomain_name, generate_unique_subdomain}
use mmar.Server.Registry.{
  Refusal, by_limit, authenticate, turned_down, free_name, drawn_name, choose_subdomain,
}
use mmar.Server.State.{ClientTunnel}

-- The messages about a token, and those about a name.
abbrev IsTokenType : ℕ → Type 0
IsTokenType t =
    (t ≡ Types.auth_token_required)
    ⊎ ((t ≡ Types.auth_token_invalid) ⊎ (t ≡ Types.auth_token_limit_exceeded))

abbrev IsNameType : ℕ → Type 0
IsNameType t = (t ≡ Types.invalid_subdomain_name) ⊎ (t ≡ Types.subdomain_already_taken)

by_limit-IsTokenType :
    (am : AuthManager) (token : Bytes) (v : Validity) (t : ℕ) (why : Refusal)
    → by_limit am token v ≡ some (t, why)
    → IsTokenType t
unfolding by_limit
by_limit-IsTokenType am token token_required t why h = ground arith
by_limit-IsTokenType am token token_invalid t why h = ground arith
by_limit-IsTokenType am token (valid limit) t why h = ground arith

authenticate-IsTokenType :
    (am : Option AuthManager) (token : Bytes) (t : ℕ) (why : Refusal)
    → authenticate am token ≡ some (t, why)
    → IsTokenType t
unfolding authenticate
authenticate-IsTokenType (some am) token t why h =
    by_limit-IsTokenType am token (validate_token am token) t why h
authenticate-IsTokenType none [] t why h = absurd (cc)
authenticate-IsTokenType none (c ∷ token) t why h = ground arith

free_name-IsNameType :
    (name : Bytes) (o : Option ClientTunnel) (t : ℕ) (why : Refusal)
    → free_name name o ≡ turned_down t why
    → IsNameType t
unfolding free_name
free_name-IsNameType name none t why h = absurd (cc)
free_name-IsNameType name (some ct) t why h = ground arith

drawn_name-IsNameType :
    (o : Option Bytes) (t : ℕ) (why : Refusal) → drawn_name o ≡ turned_down t why → IsNameType t
unfolding drawn_name
drawn_name-IsNameType none t why h = absurd (cc)
drawn_name-IsNameType (some name) t why h = absurd (cc)

choose_subdomain-IsNameType :
    (clients : Map Bytes ClientTunnel) (draws : ℕ → ℕ → ℕ) (name : Bytes) (t : ℕ) (why : Refusal)
    → choose_subdomain clients draws name ≡ turned_down t why
    → IsNameType t
unfolding choose_subdomain
choose_subdomain-IsNameType clients draws [] t why h =
    drawn_name-IsNameType (generate_unique_subdomain clients draws) t why h
choose_subdomain-IsNameType clients draws (c ∷ name) t why h =
    elim (Bool-cases (is_valid_subdomain_name (c ∷ name))) [
      | inl good ↦ free_name-IsNameType (c ∷ name) (lookup (c ∷ name) clients) t why (rw good at h)
      | inr bad ↦ ground arith
    ]

-- The types of the messages by which a tunnel is refused for its token or its name.
pub refused_types :
    (am : Option AuthManager) (token name : Bytes) (clients : Map Bytes ClientTunnel)
    (draws : ℕ → ℕ → ℕ) (t : ℕ) (why : Refusal)
    → (authenticate am token ≡ some (t, why))
      ⊎ (choose_subdomain clients draws name ≡ turned_down t why)
    → IsTokenType t ⊎ IsNameType t
refused_types am token name clients draws t why (inl h) =
    inl (authenticate-IsTokenType am token t why h)
refused_types am token name clients draws t why (inr h) =
    inr (choose_subdomain-IsNameType clients draws name t why h)
