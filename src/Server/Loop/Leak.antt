-- ===== src/Server/Loop/Leak.antt =====
-- internal/server/main.go: what becomes of the tunnels of a connection that makes two.
use mathlib.Core.Path.{subst}
use mmar.Http.{ServerResponse}
use mmar.Prelude.Counting.{count-append_one, count-erase}
use mmar.Prelude.Io.{Error, ok, err}
use mmar.Prelude.Maps.{lookup, lookup-insert, lookup-insert_self, lookup-delete}
use mmar.Prelude.{
  ℕ, suc, ◌≡◌, ◌≢◌, true, Bytes, Option, some, arith, bytes_eq, count, inl, inr, Bool-cases,
}
use mmar.Protocol.Conn.{Tunnel, reserved_subdomain}
use mmar.Protocol.Types
use mmar.Protocol.{TunnelMessage}
use mmar.Server.Loop.{again, stop, create, after_creation, then_stop, dispatch, process_message}
use mmar.Server.Registry.Closing.{Removed, close_needs_open}
use mmar.Server.Registry.Invariant.{close-Removed}
use mmar.Server.Registry.After.{new_client_tunnel-after}
use mmar.Server.Registry.Tables.{Recorded}
use mmar.Server.Registry.{
  Creation, created, refused, tunnels_at, ip_of, close_connection, close_client_tunnel,
  close_client_tunnel_or_conn,
}
use mmar.Server.Requests.{ParsedResponse}
use mmar.Server.State.{ClientTunnel, MmarServer, Running, running, crashed}
use mmar.Utils.{network_error}

abbrev pub create_message : Bytes → TunnelMessage
create_message data_read = record { msg_type = Types.create_tunnel; msg_data = data_read }

after_creation-inverse :
    (r : Running (Creation × MmarServer)) (ct : ClientTunnel) (s : MmarServer)
    → after_creation r ≡ running (again (some ct), s)
    → r ≡ running (created ct, s)
after_creation-inverse crashed ct s h = absurd (cc)
after_creation-inverse (running (created c, q)) ct s h = ground (arith, h)
after_creation-inverse (running (refused why, q)) ct s h = absurd (ground (arith, h))

-- A tunnel is among the clients, and is counted for an address.
pub record Listed (ct : ClientTunnel) (ip : Bytes) (s : MmarServer) : Type 0 where
  pub client : lookup ct.id s.clients ≡ some ct
  pub counted : (n : ℕ) × (count ct.id (tunnels_at s ip) ≡ suc n)

Recorded-Listed :
    {ct : ClientTunnel} {s s' : MmarServer} → Recorded ct s s' → Listed ct (ip_of s ct.conn) s'
Recorded-Listed {ct} {s} p = record {
  client = rw p.clients (lookup-insert_self ct.id ct s.clients);
  counted = (
    count ct.id (tunnels_at s (ip_of s ct.conn)),
    ground (
      arith,
      p.per_ip (ip_of s ct.conn),
      bytes_eq.same_iff (ip_of s ct.conn) (ip_of s ct.conn),
      count-append_one ct.id ct.id (tunnels_at s (ip_of s ct.conn)),
      bytes_eq.same_iff ct.id ct.id,
    ),
  );
}

-- Another tunnel that enters leaves it there.
Recorded-keeps :
    {ct other : ClientTunnel} {ip : Bytes} {s s' : MmarServer}
    → other.id ≢ ct.id
    → Recorded other s s'
    → Listed ct ip s
    → Listed ct ip s'
Recorded-keeps {ct} {other} {ip} {s} ne p l = record {
  client = rw p.clients (
      ground (
        arith,
        lookup-insert other.id ct.id other s.clients,
        bytes_eq.same_iff other.id ct.id,
        ne,
        l.client,
      ));
  counted = (
    l.counted.0,
    ground (
      arith,
      p.per_ip ip,
      count-append_one ct.id other.id (tunnels_at s ip),
      bytes_eq.same_iff other.id ct.id,
      ne,
      l.counted.1,
    ),
  );
}

Removed-keeps :
    {ct other : ClientTunnel} {ip : Bytes} {s s' : MmarServer}
    → other.id ≢ ct.id
    → Removed other s s'
    → Listed ct ip s
    → Listed ct ip s'
Removed-keeps {ct} {other} {ip} {s} ne p l = record {
  client = rw p.clients (
      ground (
        arith,
        lookup-delete other.id ct.id s.clients,
        bytes_eq.same_iff other.id ct.id,
        ne,
        l.client,
      ));
  counted = (
    l.counted.0,
    ground (
      arith,
      p.per_ip ip,
      count-erase ct.id other.id (tunnels_at s ip),
      bytes_eq.same_iff other.id ct.id,
      ne,
      l.counted.1,
    ),
  );
}

close_or_conn-keeps :
    (ct other : ClientTunnel) (ip : Bytes) (t : Tunnel) (s s' : MmarServer)
    → other.id ≢ ct.id
    → Listed ct ip s
    → close_client_tunnel_or_conn (some other) t s ≡ running s'
    → Listed ct ip s'
unfolding close_client_tunnel_or_conn close_connection
close_or_conn-keeps ct other ip t s s' ne l h =
    elim (Bool-cases (reserved_subdomain other.tunnel)) [
      | inl named ↦
          let e : close_client_tunnel other s ≡ running s' = rw named at h in
          Removed-keeps ne (close-Removed other s s' (close_needs_open other s s' e) e) l
      | inr nameless ↦
          let e : close_connection t.conn s ≡ s' = ground (arith, nameless, h) in
          subst (Listed ct ip) e (record { client = l.client; counted = l.counted })
    ]

module _ (draws : ℕ → ℕ → ℕ) (read_response : ℕ → Bytes → ParsedResponse)
    (write_response : ServerResponse → Bytes) where
  created-Recorded :
      (c : Option ClientTunnel) (t : Tunnel) (data_read : Bytes) (s s' : MmarServer)
      (ct : ClientTunnel)
      → process_message draws read_response write_response c t (ok (create_message data_read)) s
        ≡ running (again (some ct), s')
      → Recorded ct s s' × (ct.conn ≡ t.conn)
  unfolding process_message dispatch create
  created-Recorded c t data_read s s' ct h =
      elim (new_client_tunnel-after draws t _ _ s (created ct) s'
        (after_creation-inverse _ ct s' h)) [
          | inl ((why, e), same) ↦ absurd (cc)
          | inr (e, inr failed) ↦ absurd (cc)
          | inr (e, inl result) ↦
              let same : e.made ≡ ct = ground (arith, result) in
              (
                subst (λ q. Recorded q s s') same e.entered,
                subst (λ q. q.conn ≡ t.conn) same e.conn_kept,
              )
        ]

  -- A connection that has made two tunnels with different names, and then breaks, leaves the first
  -- among the clients and counted for the address of the connection: only the second is closed.
  pub second_tunnel_leaks :
      (t : Tunnel) (c : Option ClientTunnel) (data1 data2 : Bytes) (s s1 s2 s3 : MmarServer)
      (ct1 ct2 : ClientTunnel) (e : Error)
      → process_message draws read_response write_response c t (ok (create_message data1)) s
        ≡ running (again (some ct1), s1)
      → process_message draws read_response write_response
          (some ct1)
          t
          (ok (create_message data2))
          s1
        ≡ running (again (some ct2), s2)
      → ct2.id ≢ ct1.id
      → network_error e ≡ true
      → process_message draws read_response write_response (some ct2) t (err e) s2
        ≡ running (stop, s3)
      → Listed ct1 (ip_of s t.conn) s3
  unfolding process_message
  second_tunnel_leaks t c data1 data2 s s1 s2 s3 ct1 ct2 e h1 h2 ne net h3 =
      let (first, conn) = created-Recorded c t data1 s s1 ct1 h1 in
      let (second, _) = created-Recorded (some ct1) t data2 s1 s2 ct2 h2 in
      let listed : Listed ct1 (ip_of s t.conn) s2 =
        Recorded-keeps ne second
          (subst (λ k. Listed ct1 (ip_of s k) s1) conn (Recorded-Listed first)) in
      close_or_conn-keeps ct1 ct2 (ip_of s t.conn) t s2 s3 ne listed
        (then_stop-inverse (close_client_tunnel_or_conn (some ct2) t s2) s3 (rw net at h3))
    where
      then_stop-inverse :
          (r : Running MmarServer) (q : MmarServer)
          → then_stop r ≡ running (stop, q)
          → r ≡ running q
      then_stop-inverse crashed q h = absurd (cc)
      then_stop-inverse (running p) q h = ground (arith, h)
