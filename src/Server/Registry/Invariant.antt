-- ===== src/Server/Registry/Invariant.antt =====
-- internal/server/main.go: the clients and the tunnels counted for each address agree.
use mathlib.Core.Path.{subst}
use mmar.Constants.{max_tunnels_per_ip}
use mmar.Prelude.Counting.{count-append_one, count-erase, length-erase}
use mmar.Prelude.Maps.{lookup, lookup-insert, lookup-delete}
use mmar.Prelude.{
  ℕ, ◌≤◌, ◌<◌, ◌≡◌, ◌≢◌, refl, false, Bytes, [], ◌∷◌, Option, none, some, arith, if◌then◌else◌,
  bytes_eq, ◌==◌, count, inl, inr, Bool-cases, length, length-append, eq_of_beq, beq_of_ne,
}
use mmar.Protocol.Conn.{Tunnel}
use mmar.Server.Names.{generate_random_id}
use mmar.Server.Names.Fresh.{generate_unique_subdomain_first, length-generate_random_id}
use mmar.Server.Registry.{
  Creation, chosen, choose_subdomain, tunnels_at, ip_of, new_client_tunnel, close_client_tunnel,
}
use mmar.Server.Registry.Closing.{Removed, close_client_tunnel-Removed}
use mmar.Server.Registry.After.{new_client_tunnel-after}
use mmar.Server.Registry.Tables.{SameTables, Recorded}
use mmar.Server.State.{ClientTunnel, MmarServer, running}

-- No address has more tunnels counted than it may.
abbrev pub IsCapped : MmarServer → Type 0
IsCapped s = (ip : Bytes) → length (tunnels_at s ip) ≤ max_tunnels_per_ip

Recorded-IsCapped :
    {ct : ClientTunnel} {s s' : MmarServer} → Recorded ct s s' → IsCapped s → IsCapped s'
Recorded-IsCapped {ct} {s} p capped ip = elim (Bool-cases (ip_of s ct.conn == ip)) [
  | inl same ↦
      rw (p.per_ip ip, same, length-append)
        (omega (
          arith,
          subst (λ a. length (tunnels_at s a) < max_tunnels_per_ip)
              (eq_of_beq (ip_of s ct.conn) ip same) p.room,
        ))
  | inr differs ↦ rw (p.per_ip ip, differs) (capped ip)
]

-- Whatever a client asks for, a server on which no address has more than five tunnels counted
-- stays such a server.
pub new_client_tunnel-IsCapped :
    (draws : ℕ → ℕ → ℕ) (t : Tunnel) (subdomain token : Bytes) (s : MmarServer) (c : Creation)
    (s' : MmarServer)
    → IsCapped s
    → new_client_tunnel draws t subdomain token s ≡ running (c, s')
    → IsCapped s'
new_client_tunnel-IsCapped draws t subdomain token s c s' capped h =
    elim (new_client_tunnel-after draws t subdomain token s c s' h) [
      | inl (_, same) ↦ λ ip. rw (same.per_ip ip) (capped ip)
      | inr (e, _) ↦ Recorded-IsCapped e.entered capped
    ]

-- Whether a name is a client's that counts for an address.
abbrev by_address : MmarServer → Bytes → Option ClientTunnel → ℕ
by_address s ip none = 0
by_address s ip (some ct) = if ip_of s ct.conn == ip then 1 else 0

abbrev registered : MmarServer → Bytes → Bytes → ℕ
registered s ip id = by_address s ip (lookup id s.clients)

-- Clients stand under their own names, none under the empty one, and each name is counted for an
-- address exactly as often as it is registered for it: once or never.
pub record IsConsistent (s : MmarServer) : Type 0 where
  pub named : (id : Bytes) (ct : ClientTunnel) → lookup id s.clients ≡ some ct → ct.id ≡ id
  pub nonempty : lookup [] s.clients ≡ none
  pub counted : (ip id : Bytes) → count id (tunnels_at s ip) ≡ registered s ip id

by_address-ips :
    (s s' : MmarServer) (ip : Bytes) (o : Option ClientTunnel)
    → ((c : ℕ) → ip_of s' c ≡ ip_of s c)
    → by_address s' ip o ≡ by_address s ip o
by_address-ips s s' ip none h = refl
by_address-ips s s' ip (some ct) h = rw (h ct.conn)

SameTables-IsConsistent : {s s' : MmarServer} → SameTables s s' → IsConsistent s → IsConsistent s'
SameTables-IsConsistent {s} {s'} p v = record {
  named = λ id ct h. v.named id ct (rw p.clients at h);
  nonempty = rw p.clients v.nonempty;
  counted = λ ip id.
      rw (p.per_ip ip, p.clients, by_address-ips s s' ip (lookup id s.clients) p.ips)
        (v.counted ip id);
}

Recorded-IsConsistent :
    {ct : ClientTunnel} {s s' : MmarServer}
    → Recorded ct s s'
    → lookup ct.id s.clients ≡ none
    → ct.id ≢ []
    → IsConsistent s
    → IsConsistent s'
Recorded-IsConsistent {ct} {s} {s'} p fresh named v = record {
  named = λ id other h. ground (
    arith,
    lookup-insert ct.id id ct s.clients,
    p.clients,
    h,
    v.named id other,
    bytes_eq.same_iff ct.id id,
  );
  nonempty = rw (p.clients, lookup-insert, beq_of_ne ct.id [] named) v.nonempty;
  counted = λ ip id.
      rw (p.per_ip ip, p.clients, lookup-insert)
        (ground (
          arith,
          by_address-ips s s' ip (lookup id s.clients) p.ips,
          p.ips ct.conn,
          count-append_one id ct.id (tunnels_at s ip),
          v.counted ip id,
          bytes_eq.same_iff ct.id id,
          fresh,
        ));
}

pub Removed-IsCapped :
    {ct : ClientTunnel} {s s' : MmarServer} → Removed ct s s' → IsCapped s → IsCapped s'
Removed-IsCapped {ct} {s} p capped ip =
    rw (p.per_ip ip) (ground (arith, length-erase ct.id (tunnels_at s ip), capped ip))

Removed-IsConsistent :
    {ct : ClientTunnel} {s s' : MmarServer}
    → Removed ct s s'
    → lookup ct.id s.clients ≡ some ct
    → IsConsistent s
    → IsConsistent s'
Removed-IsConsistent {ct} {s} {s'} p known v = record {
  named = λ id other h.
      ground (arith, lookup-delete ct.id id s.clients, p.clients, h, v.named id other);
  nonempty = rw (p.clients, lookup-delete) (ground (arith, v.nonempty));
  counted = λ ip id.
      rw (p.per_ip ip, p.clients, lookup-delete)
        (ground (
          arith,
          by_address-ips s s' ip (lookup id s.clients) p.ips,
          count-erase id ct.id (tunnels_at s ip),
          v.counted ip id,
          bytes_eq.same_iff ct.id id,
          known,
        ));
}

-- The name that is chosen is no client's, if the one that the server would draw is none.
chosen-fresh :
    (draws : ℕ → ℕ → ℕ) (s : MmarServer) (subdomain id : Bytes)
    → lookup [] s.clients ≡ none
    → (subdomain ≡ [] → lookup (generate_random_id (draws 0)) s.clients ≡ none)
    → choose_subdomain s.clients draws subdomain ≡ chosen id
    → (lookup id s.clients ≡ none) × (id ≢ [])
unfolding choose_subdomain
chosen-fresh draws s [] id clear fresh h = (
  ground (arith, fresh refl, generate_unique_subdomain_first s.clients draws clear),
  ground (
    arith,
    generate_unique_subdomain_first s.clients draws clear,
    length-generate_random_id (draws 0),
  ),
)
chosen-fresh draws s (c ∷ name) id clear fresh h = (ground arith, ground arith)

-- A request for a tunnel and the closing of a registered one whose channels are open. A name that
-- the server draws is one that no client has, which the program does not see to.
pub data Step (s : MmarServer) : MmarServer → Type 0 where
  make :
      (draws : ℕ → ℕ → ℕ) (t : Tunnel) (subdomain token : Bytes) (c : Creation) {s' : MmarServer}
      → (subdomain ≡ [] → lookup (generate_random_id (draws 0)) s.clients ≡ none)
      → new_client_tunnel draws t subdomain token s ≡ running (c, s')
      → Step s s'
  close :
      (ct : ClientTunnel) {s' : MmarServer}
      → lookup ct.id s.clients ≡ some ct
      → (s.shareds ct.shared).channels_closed ≡ false
      → close_client_tunnel ct s ≡ running s'
      → Step s s'

pub data Reach (s : MmarServer) : MmarServer → Type 0 where
  here : Reach s s
  next : {t u : MmarServer} → Reach s t → Step t u → Reach s u

-- Where the server stays when a tunnel is closed.
pub close-Removed :
    (ct : ClientTunnel) (s s' : MmarServer)
    → (s.shareds ct.shared).channels_closed ≡ false
    → close_client_tunnel ct s ≡ running s'
    → Removed ct s s'
close-Removed ct s s' still_open h =
    let (q, e, removed) = close_client_tunnel-Removed ct s still_open in
    let same : q ≡ s' = cc (e, h) in subst (Removed ct s) same removed

Step-IsConsistent : {s s' : MmarServer} → Step s s' → IsConsistent s → IsConsistent s'
Step-IsConsistent {s} (make draws t subdomain token c {s'} fresh h) v =
    elim (new_client_tunnel-after draws t subdomain token s c s' h) [
      | inl (_, same) ↦ SameTables-IsConsistent same v
      | inr (e, _) ↦
          let (free, named) = chosen-fresh draws s subdomain e.made.id v.nonempty fresh e.picked in
          Recorded-IsConsistent e.entered free named v
    ]
Step-IsConsistent {s} (close ct {s'} known still_open h) v =
    Removed-IsConsistent (close-Removed ct s s' still_open h) known v

-- Over any history in which tunnels are made, every name that the server draws being free, and
-- registered tunnels whose channels are open are closed, a consistent server stays consistent: the
-- tunnels counted for an address are exactly the clients registered for it, each counted once.
pub Reach-IsConsistent : {s s' : MmarServer} → IsConsistent s → Reach s s' → IsConsistent s'
Reach-IsConsistent v here = v
Reach-IsConsistent v (next r st) = Step-IsConsistent st (Reach-IsConsistent v r)
