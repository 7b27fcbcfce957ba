-- ===== src/Server/Registry/Chosen.antt =====
-- internal/server/main.go: the names that `newClientTunnel` chooses.
use mmar.Constants.{id_length}
use mmar.Prelude.Maps.{Map, lookup}
use mmar.Prelude.{ℕ, ◌≡◌, true, Bytes, [], ◌∷◌, none, arith, bytes_eq, length, ◌⊎◌, inl, inr}
use mmar.Server.Names.Fresh.{length-generate_unique_subdomain}
use mmar.Server.Names.{is_valid_subdomain_name}
use mmar.Server.Registry.{chosen, choose_subdomain}
use mmar.Server.State.{ClientTunnel}

-- A name that is asked for is valid and no client's; a drawn one has the length of those.
pub choose_subdomain-cases :
    (draws : ℕ → ℕ → ℕ) (clients : Map Bytes ClientTunnel) (subdomain id : Bytes)
    → choose_subdomain clients draws subdomain ≡ chosen id
    → ((is_valid_subdomain_name id ≡ true) × (lookup id clients ≡ none)) ⊎ (length id ≡ id_length)
unfolding choose_subdomain
choose_subdomain-cases draws clients [] id h =
    inr (length-generate_unique_subdomain clients draws id (ground arith))
choose_subdomain-cases draws clients (c ∷ name) id h = inl (ground arith, ground arith)
