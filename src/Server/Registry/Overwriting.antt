-- ===== src/Server/Registry/Overwriting.antt =====
-- internal/server/main.go: a name that is drawn a second time.
use mmar.Prelude.Maps.{lookup, lookup-insert_self}
use mmar.Prelude.{ℕ, ◌≡◌, Bytes, [], none, some, arith, bytes_eq, inl, inr}
use mmar.Protocol.Conn.{Tunnel}
use mmar.Server.Names.{generate_random_id}
use mmar.Server.Names.Fresh.{generate_unique_subdomain_first}
use mmar.Server.Registry.{created, choose_subdomain, new_client_tunnel}
use mmar.Server.Registry.After.{new_client_tunnel-after}
use mmar.Server.State.{ClientTunnel, MmarServer, running}

-- When no client has the empty name, and the first name that the server draws is a client's
-- already, a new tunnel that is made takes that client's place in the table: requests for the name
-- go to the new tunnel's connection from then on.
pub drawn_name_overwrites :
    (draws : ℕ → ℕ → ℕ) (t : Tunnel) (token : Bytes) (s : MmarServer) (old ct : ClientTunnel)
    (s' : MmarServer)
    → lookup [] s.clients ≡ none
    → lookup (generate_random_id (draws 0)) s.clients ≡ some old
    → new_client_tunnel draws t [] token s ≡ running (created ct, s')
    → (lookup (generate_random_id (draws 0)) s'.clients ≡ some ct) × (ct.conn ≡ t.conn)
unfolding choose_subdomain
drawn_name_overwrites draws t token s old ct s' clear taken h =
    elim (new_client_tunnel-after draws t [] token s (created ct) s' h) [
      | inl ((why, e), _) ↦ absurd (ground arith)
      | inr (e, inr failed) ↦ absurd (ground arith)
      | inr (e, inl result) ↦ (
        ground (
          arith,
          e.entered.clients,
          lookup-insert_self e.made.id e.made s.clients,
          generate_unique_subdomain_first s.clients draws clear,
          e.picked,
        ),
        ground (arith, e.conn_kept),
      )
    ]
