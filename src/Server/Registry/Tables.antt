-- ===== src/Server/Registry/Tables.antt =====
-- internal/server/main.go: the tables that count tunnels, and the steps that leave them alone or add
-- a tunnel to them.
use mathlib.Core.Path.{subst}
use mmar.Constants.{max_tunnels_per_ip}
use mmar.Prelude.Maps.{lookup, insert, lookup-insert}
use mmar.Prelude.{
  ℕ, ◌<◌, ◌≡◌, refl, ap, sym, ◌∙◌, false, Bytes, [], ◌∷◌, ◌++◌, arith, length, if◌then◌else◌,
  bytes_eq, ◌==◌, inl, inr, Option-cases,
}
use mmar.Protocol.{TunnelMessage}
use mmar.Protocol.Conn.{Conn, send_message, write_conn, close_write, close_conn}
use mmar.Server.Registry.{
  send_on, send_error_and_close_write, tunnels_at, ip_of, tunnel_limited_ip, close, auth_add,
  record_tunnel, with_shared, bare, close_write_on, close_connection, drained,
}
use mmar.Server.Registry.Tokens.{Counted, auth_add-Counted}
use mmar.Server.State.{ClientTunnel, MmarServer, running}

-- The tables that count tunnels read alike, and connections keep their addresses.
pub record SameTables (s s' : MmarServer) : Type 0 where
  pub clients : s'.clients ≡ s.clients
  pub per_ip : (ip : Bytes) → tunnels_at s' ip ≡ tunnels_at s ip
  pub auth : s'.auth_manager ≡ s.auth_manager
  pub ips : (c : ℕ) → ip_of s' c ≡ ip_of s c

-- A tunnel has entered the three tables, under an address that had room.
pub record Recorded (ct : ClientTunnel) (s s' : MmarServer) : Type 0 where
  pub room : length (tunnels_at s (ip_of s ct.conn)) < max_tunnels_per_ip
  pub clients : s'.clients ≡ insert ct.id ct s.clients
  pub per_ip :
      (ip : Bytes)
      → tunnels_at s' ip
        ≡ (if ip_of s ct.conn == ip then tunnels_at s ip ++ ct.id ∷ [] else tunnels_at s ip)
  pub auth : s'.auth_manager ≡ auth_add ct.auth_token ct.id s.auth_manager
  pub counted : Counted (λ ids. ids ++ ct.id ∷ []) s.auth_manager ct.auth_token s'.auth_manager
  pub ips : (c : ℕ) → ip_of s' c ≡ ip_of s c

send_message-remote_addr :
    (m : TunnelMessage) (c : Conn) → (send_message m c).1.remote_addr ≡ c.remote_addr
unfolding send_message write_conn
send_message-remote_addr m c = ground arith

-- Sending changes connections only, and no address.
pub send_on-SameTables :
    (c : ℕ) (m : TunnelMessage) (s : MmarServer) → SameTables s (send_on c m s).1
unfolding send_on
send_on-SameTables c m s = record {
  clients = refl;
  per_ip = λ ip. refl;
  auth = refl;
  ips = λ k. ground (arith, send_message-remote_addr m (s.conns c));
}

pub SameTables-trans : {s t u : MmarServer} → SameTables s t → SameTables t u → SameTables s u
SameTables-trans p q = record {
  clients = q.clients ∙ p.clients;
  per_ip = λ ip. q.per_ip ip ∙ p.per_ip ip;
  auth = q.auth ∙ p.auth;
  ips = λ c. q.ips c ∙ p.ips c;
}

close_write_on-SameTables : (c : ℕ) (s : MmarServer) → SameTables s (close_write_on c s)
unfolding close_write_on close_write
close_write_on-SameTables c s = record {
  clients = refl;
  per_ip = λ ip. refl;
  auth = refl;
  ips = λ k. ground arith;
}

pub send_error-SameTables :
    (msg_type c : ℕ) (s : MmarServer) → SameTables s (send_error_and_close_write msg_type c s)
send_error-SameTables msg_type c s =
    unfold send_error_and_close_write in
    SameTables-trans (send_on-SameTables c (bare msg_type) s) (close_write_on-SameTables c _)

pub with_shared-SameTables : (s : MmarServer) → SameTables s (with_shared s)
unfolding with_shared
with_shared-SameTables s = record {
  clients = refl;
  per_ip = λ ip. refl;
  auth = refl;
  ips = λ c. refl;
}

-- Making the list of an address that has none changes no reading of the table.
pub tunnel_limited_ip-SameTables :
    (s : MmarServer) (ip : Bytes) → SameTables s (tunnel_limited_ip s ip).1
unfolding tunnel_limited_ip
tunnel_limited_ip-SameTables s ip = elim (Option-cases (lookup ip s.tunnels_per_ip)) [
  | inl e ↦ rw e (record {
    clients = refl;
    per_ip = λ other.
        ground (arith, lookup-insert ip other [] s.tunnels_per_ip, bytes_eq.same_iff ip other);
    auth = refl;
    ips = λ c. refl;
  })
  | inr (ids, e) ↦
      rw e (record { clients = refl; per_ip = λ ip. refl; auth = refl; ips = λ c. refl })
]

-- Closing a tunnel whose channels are open changes no table that counts.
pub close-SameTables :
    (ct : ClientTunnel) (s : MmarServer)
    → (s.shareds ct.shared).channels_closed ≡ false
    → (s' : MmarServer) × (close ct s ≡ running s') × SameTables s s'
unfolding close close_conn
close-SameTables ct s still_open = (
  close_connection ct.conn (drained ct s),
  rw still_open,
  record { clients = refl; per_ip = λ ip. refl; auth = refl; ips = λ c. ground arith },
)

-- The channels of a tunnel that is being made are open.
pub fresh_channels :
    (s : MmarServer) → ((with_shared s).shareds s.next_shared).channels_closed ≡ false
unfolding with_shared
fresh_channels s = ground arith

pub send_error-shareds :
    (msg_type c k : ℕ) (s : MmarServer)
    → (send_error_and_close_write msg_type c s).shareds k ≡ s.shareds k
unfolding send_error_and_close_write
send_error-shareds msg_type c k s = refl

pub tunnel_limited_ip-shareds :
    (s : MmarServer) (ip : Bytes) (k : ℕ) → (tunnel_limited_ip s ip).1.shareds k ≡ s.shareds k
unfolding tunnel_limited_ip
tunnel_limited_ip-shareds s ip k = ground arith

pub record_tunnel-Recorded :
    (ct : ClientTunnel) (s q : MmarServer)
    → SameTables s q
    → length (tunnels_at s (ip_of s ct.conn)) < max_tunnels_per_ip
    → Recorded ct s (record_tunnel ct (ip_of s ct.conn) q)
unfolding record_tunnel
record_tunnel-Recorded ct s q same room = record {
  room = room;
  clients = ap (insert ct.id ct) same.clients;
  per_ip = λ ip. ground (
    arith,
    lookup-insert (ip_of s ct.conn) ip (tunnels_at q (ip_of s ct.conn) ++ ct.id ∷ [])
        q.tunnels_per_ip,
    bytes_eq.same_iff (ip_of s ct.conn) ip,
    same.per_ip ip,
  );
  auth = ap (auth_add ct.auth_token ct.id) same.auth;
  counted =
      subst
        (λ o.
          Counted (λ ids. ids ++ ct.id ∷ []) s.auth_manager ct.auth_token
            (auth_add ct.auth_token ct.id o))
        (sym same.auth) (auth_add-Counted s.auth_manager ct.auth_token ct.id);
  ips = same.ips;
}

pub Recorded-SameTables :
    {ct : ClientTunnel} {s t u : MmarServer} → Recorded ct s t → SameTables t u → Recorded ct s u
Recorded-SameTables {ct} {s} p q = record {
  room = p.room;
  clients = q.clients ∙ p.clients;
  per_ip = λ ip. q.per_ip ip ∙ p.per_ip ip;
  auth = q.auth ∙ p.auth;
  counted =
      subst (Counted (λ ids. ids ++ ct.id ∷ []) s.auth_manager ct.auth_token) (sym q.auth)
        p.counted;
  ips = λ c. q.ips c ∙ p.ips c;
}
