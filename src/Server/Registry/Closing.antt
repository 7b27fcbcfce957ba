-- ===== src/Server/Registry/Closing.antt =====
-- internal/server/main.go: closing a tunnel.
use mathlib.Core.Path.{subst}
use mmar.Prelude.Counting.{erase-absent}
use mmar.Prelude.Maps.{delete, lookup-insert}
use mmar.Prelude.{
  ℕ, ◌≡◌, refl, sym, ◌∙◌, true, false, Bytes, ◌∷◌, some, arith, if◌then◌else◌, bytes_eq, ◌==◌,
  erase, inl, inr, Bool-cases,
}
use mmar.Protocol.Conn.{Tunnel, reserved_subdomain}
use mmar.Server.Registry.{
  auth_remove, tunnels_at, ip_of, erase_at, unregister, close, close_client_tunnel,
  close_client_tunnel_or_conn,
}
use mmar.Server.Registry.Tables.{SameTables, close-SameTables}
use mmar.Server.Registry.Tokens.{Counted, auth_remove-Counted}
use mmar.Server.State.{ClientTunnel, MmarServer, running, crashed}

-- A tunnel has left the three tables.
pub record Removed (ct : ClientTunnel) (s s' : MmarServer) : Type 0 where
  pub clients : s'.clients ≡ delete ct.id s.clients
  pub per_ip :
      (ip : Bytes)
      → tunnels_at s' ip
        ≡ (if ip_of s ct.conn == ip then erase ct.id (tunnels_at s ip) else tunnels_at s ip)
  pub auth : s'.auth_manager ≡ auth_remove ct.auth_token ct.id s.auth_manager
  pub counted : Counted (erase ct.id) s.auth_manager ct.auth_token s'.auth_manager
  pub ips : (c : ℕ) → ip_of s' c ≡ ip_of s c

erase_at-per_ip :
    (here id ip : Bytes) (s : MmarServer)
    → tunnels_at (erase_at here id s) ip
      ≡ (if here == ip then erase id (tunnels_at s ip) else tunnels_at s ip)
unfolding erase_at
erase_at-per_ip here id ip s = ground (
  arith,
  lookup-insert here ip (erase id (tunnels_at s here)) s.tunnels_per_ip,
  bytes_eq.same_iff here ip,
  erase-absent id (tunnels_at s here),
)

unregister-auth :
    (ct : ClientTunnel) (s : MmarServer)
    → (unregister ct s).auth_manager ≡ auth_remove ct.auth_token ct.id s.auth_manager
unfolding unregister erase_at
unregister-auth ct s = ground arith

unregister-Removed : (ct : ClientTunnel) (s : MmarServer) → Removed ct s (unregister ct s)
unfolding unregister
unregister-Removed ct s = record {
  clients = unfold erase_at in ground arith;
  per_ip = λ ip.
      erase_at-per_ip (ip_of s ct.conn) ct.id ip (record s { clients = delete ct.id s.clients });
  auth = unregister-auth ct s;
  counted =
      subst (Counted (erase ct.id) s.auth_manager ct.auth_token) (sym (unregister-auth ct s))
        (auth_remove-Counted s.auth_manager ct.auth_token ct.id);
  ips = λ c. unfold erase_at in ground arith;
}

Removed-SameTables :
    {ct : ClientTunnel} {s t u : MmarServer} → Removed ct s t → SameTables t u → Removed ct s u
Removed-SameTables {ct} {s} p q = record {
  clients = q.clients ∙ p.clients;
  per_ip = λ ip. q.per_ip ip ∙ p.per_ip ip;
  auth = q.auth ∙ p.auth;
  counted = subst (Counted (erase ct.id) s.auth_manager ct.auth_token) (sym q.auth) p.counted;
  ips = λ c. q.ips c ∙ p.ips c;
}

unregister-shareds : (ct : ClientTunnel) (s : MmarServer) → (unregister ct s).shareds ≡ s.shareds
unfolding unregister erase_at
unregister-shareds ct s = ground arith

close_client_tunnel_lem :
    (ct : ClientTunnel) (s : MmarServer) → close_client_tunnel ct s ≡ close ct (unregister ct s)
unfolding close_client_tunnel
close_client_tunnel_lem ct s = refl

-- Closing a tunnel whose channels are open succeeds: its name leaves the clients, the list of its
-- address loses one entry of it, if it has one, and so does the list of its token, if there are an
-- auth manager and a token; every other list is as it was.
pub close_client_tunnel-Removed :
    (ct : ClientTunnel) (s : MmarServer)
    → (s.shareds ct.shared).channels_closed ≡ false
    → (s' : MmarServer) × (close_client_tunnel ct s ≡ running s') × Removed ct s s'
close_client_tunnel-Removed ct s still_open =
    let (s', e, same) = close-SameTables ct (unregister ct s) (rw unregister-shareds still_open) in
    (s', rw (close_client_tunnel_lem ct s) e, Removed-SameTables (unregister-Removed ct s) same)

close-closes :
    (ct : ClientTunnel) (s s' : MmarServer)
    → close ct s ≡ running s'
    → (s'.shareds ct.shared).channels_closed ≡ true
unfolding close
close-closes ct s s' h = elim (Bool-cases (s.shareds ct.shared).channels_closed) [
  | inl closed ↦ absurd (ground arith)
  | inr still_open ↦ ground arith
]

-- Closing a tunnel a second time crashes the server, whatever came in between, as long as it left
-- the channels closed.
pub close_client_tunnel_twice :
    (ct : ClientTunnel) (s s' t : MmarServer)
    → close_client_tunnel ct s ≡ running s'
    → (t.shareds ct.shared).channels_closed ≡ (s'.shareds ct.shared).channels_closed
    → close_client_tunnel ct t ≡ crashed
close_client_tunnel_twice ct s s' t first since =
    rw (close_client_tunnel_lem ct t)
      (unfold close in ground (arith, unregister-shareds ct t, since ∙ closed))
  where
    closed : (s'.shareds ct.shared).channels_closed ≡ true
    closed = close-closes ct (unregister ct s) s' (rw (close_client_tunnel_lem ct s) at first)

-- A tunnel with a name is closed by leaving the tables.
pub close_client_tunnel_or_conn-named :
    (ct : ClientTunnel) (t : Tunnel) (s : MmarServer) {c : ℕ} {id : Bytes}
    → ct.id ≡ c ∷ id
    → close_client_tunnel_or_conn (some ct) t s ≡ close_client_tunnel ct s
unfolding close_client_tunnel_or_conn reserved_subdomain
close_client_tunnel_or_conn-named ct t s named = ground arith

-- Only a tunnel whose channels are open can be closed.
pub close_needs_open :
    (ct : ClientTunnel) (s s' : MmarServer)
    → close_client_tunnel ct s ≡ running s'
    → (s.shareds ct.shared).channels_closed ≡ false
close_needs_open ct s s' h = elim (Bool-cases (s.shareds ct.shared).channels_closed) [
  | inl closed ↦ absurd (
      unfold close in
      ground (arith, unregister-shareds ct s, closed, sym (close_client_tunnel_lem ct s) ∙ h))
  | inr still_open ↦ still_open
]
