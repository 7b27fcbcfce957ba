-- ===== src/Server/Abstract/Refining.antt =====
-- internal/server/main.go: every change of the tables is a step of the registry.
use mathlib.Core.Path.{subst}
use mmar.Auth.{AuthManager}
use mmar.Prelude.Decimal.{ℤ}
use mmar.Prelude.Maps.{Map, lookup, lookup-insert, lookup-delete}
use mmar.Prelude.{
  ℕ, ◌≡◌, refl, ap, sym, ◌∙◌, Bytes, List, [], ◌∷◌, ◌++◌, Option, none, some, arith, bytes_eq, ◌==◌,
  inl, inr, ◌⊎◌, true, length, erase,
}
use mmar.Constants.{id_length}
use mmar.Protocol.Conn.{Tunnel}
use mmar.Server.Abstract.Holding.{held_under, change-Lists, held-add, held-remove}
use mmar.Server.Abstract.Bags.{Lists, empty-Lists, append-Lists, erase-Lists}
use mmar.Server.Abstract.{
  empty_bag, put_in, take_out, Registry, change, change_token, open_tunnel, close_tunnel,
  AllowsToken, MayOpen, Reached, nothing_open, opened, closed,
}
use mmar.Server.Names.{is_valid_subdomain_name}
use mmar.Server.Registry.Chosen.{choose_subdomain-cases}
use mmar.Server.Registry.After.{Entered, new_client_tunnel-after}
use mmar.Server.Registry.Closing.{Removed}
use mmar.Server.Registry.Keyed.{
  HasKey, keys_of, authenticate-HasKey, new_client_tunnel-keys_of, Removed-keys_of,
}
use mmar.Server.Registry.{
  Creation, chosen, choose_subdomain, new_client_tunnel, tunnels_or_nil, ip_of,
}
use mmar.Server.Registry.Tables.{Recorded, SameTables}
use mmar.Server.State.{ClientTunnel, MmarServer, running}
use mmar.Server.Keeps.{Invariant}

-- The tables hold what the registry says.
pub record Represents (r : Registry) (clients : Map Bytes ClientTunnel)
    (per_ip : Map Bytes (List Bytes)) (auth : Option AuthManager) : Type 0 where
  pub owner : (id : Bytes) → lookup id clients ≡ r.owner id
  pub by_ip : (ip : Bytes) → Lists (r.by_ip ip) (tunnels_or_nil (lookup ip per_ip))
  pub by_token : (token : Bytes) → Lists (r.by_token token) (held_under auth token)

Recorded-Represents :
    {r : Registry} {ct : ClientTunnel} {s s' : MmarServer}
    → Recorded ct s s'
    → AllowsToken (keys_of s.auth_manager) ct.auth_token
    → Represents r s.clients s.tunnels_per_ip s.auth_manager
    → Represents (open_tunnel ct (ip_of s ct.conn) r) s'.clients s'.tunnels_per_ip s'.auth_manager
Recorded-Represents {r} {ct} {s} {s'} p allowed q = record {
  owner = λ id.
      ground (arith, ap (lookup id) p.clients, lookup-insert ct.id id ct s.clients, q.owner id);
  by_ip = λ ip.
      subst (Lists (change (put_in ct.id) (ip_of s ct.conn) r.by_ip ip)) (sym (p.per_ip ip)) (
        change-Lists (put_in ct.id) (λ ids. ids ++ ct.id ∷ []) (ip_of s ct.conn == ip)
          (append-Lists ct.id (q.by_ip ip)) (q.by_ip ip));
  by_token = λ token.
      subst
        (λ o.
          Lists (change_token (put_in ct.id) ct.auth_token r.by_token token) (held_under o token))
        (sym p.auth)
        (held-add s.auth_manager ct.auth_token ct.id token r.by_token allowed (q.by_token token));
}

pub Removed-Represents :
    {r : Registry} {ct : ClientTunnel} {s s' : MmarServer}
    → Removed ct s s'
    → Represents r s.clients s.tunnels_per_ip s.auth_manager
    → Represents (close_tunnel ct (ip_of s ct.conn) r) s'.clients s'.tunnels_per_ip s'.auth_manager
Removed-Represents {r} {ct} {s} {s'} p q = record {
  owner =
      λ id. ground (arith, ap (lookup id) p.clients, lookup-delete ct.id id s.clients, q.owner id);
  by_ip = λ ip.
      subst (Lists (change (take_out ct.id) (ip_of s ct.conn) r.by_ip ip)) (sym (p.per_ip ip)) (
        change-Lists (take_out ct.id) (erase ct.id) (ip_of s ct.conn == ip)
          (erase-Lists ct.id (q.by_ip ip)) (q.by_ip ip));
  by_token = λ token.
      subst
        (λ o.
          Lists (change_token (take_out ct.id) ct.auth_token r.by_token token) (held_under o token))
        (sym p.auth)
        (held-remove s.auth_manager ct.auth_token ct.id token r.by_token (q.by_token token));
}

SameTables-Represents :
    {r : Registry} {s s' : MmarServer}
    → SameTables s s'
    → Represents r s.clients s.tunnels_per_ip s.auth_manager
    → Represents r s'.clients s'.tunnels_per_ip s'.auth_manager
SameTables-Represents {r} {s} {s'} p q = record {
  owner = λ id. ap (lookup id) p.clients ∙ q.owner id;
  by_ip = λ ip. subst (Lists (r.by_ip ip)) (sym (p.per_ip ip)) (q.by_ip ip);
  by_token = λ token.
      subst (λ o. Lists (r.by_token token) (held_under o token)) (sym p.auth) (q.by_token token);
}

chosen-MayOpen :
    (draws : ℕ → ℕ → ℕ) (clients : Map Bytes ClientTunnel) (r : Registry) (subdomain id : Bytes)
    → ((id : Bytes) → lookup id clients ≡ r.owner id)
    → choose_subdomain clients draws subdomain ≡ chosen id
    → ((is_valid_subdomain_name id ≡ true) × (r.owner id ≡ none)) ⊎ (length id ≡ id_length)
chosen-MayOpen draws clients r subdomain id same h =
    elim (choose_subdomain-cases draws clients subdomain id h) [
      | inl (valid, free) ↦ inl (valid, sym (same id) ∙ free)
      | inr drawn ↦ inr drawn
    ]

HasKey-AllowsToken :
    (auth : Option AuthManager) (token : Bytes)
    → HasKey auth token
    → AllowsToken (keys_of auth) token
HasKey-AllowsToken none token h = h
HasKey-AllowsToken (some am) token h = h

Entered-MayOpen :
    {draws : ℕ → ℕ → ℕ} {t : Tunnel} {subdomain token : Bytes} {s s' : MmarServer} {r : Registry}
    (e : Entered draws t subdomain token s s')
    → Represents r s.clients s.tunnels_per_ip s.auth_manager
    → MayOpen (keys_of s.auth_manager) e.made (ip_of s e.made.conn) r
Entered-MayOpen {draws} {t} {subdomain} {token} {s} {r} e q = record {
  token = HasKey-AllowsToken s.auth_manager e.made.auth_token (
      subst (HasKey s.auth_manager) (sym e.token_kept)
        (authenticate-HasKey s.auth_manager token e.passed));
  name = chosen-MayOpen draws s.clients r subdomain e.made.id q.owner e.picked;
  room = rw ((q.by_ip (ip_of s e.made.conn)).size) e.entered.room;
}

-- The tables hold what some registry says that openings by the rules and closings lead to.
abbrev pub Refines :
    Option (Map Bytes ℤ)
    → Map Bytes ClientTunnel
    → Map Bytes (List Bytes)
    → Option AuthManager
    → Type 0
Refines keys clients per_ip auth =
    (r : Registry) × Reached keys r × Represents r clients per_ip auth

pub new_client_tunnel-Refines :
    (keys : Option (Map Bytes ℤ)) (draws : ℕ → ℕ → ℕ) (t : Tunnel) (subdomain token : Bytes)
    (s : MmarServer) (c : Creation) (s' : MmarServer)
    → keys_of s.auth_manager ≡ keys
    → Refines keys s.clients s.tunnels_per_ip s.auth_manager
    → new_client_tunnel draws t subdomain token s ≡ running (c, s')
    → Refines keys s'.clients s'.tunnels_per_ip s'.auth_manager
new_client_tunnel-Refines keys draws t subdomain token s c s' same (r, reached, q) h =
    elim (new_client_tunnel-after draws t subdomain token s c s' h) [
      | inl (_, unchanged) ↦ (r, reached, SameTables-Represents unchanged q)
      | inr (e, _) ↦
          let rules = Entered-MayOpen e q in
          (
            open_tunnel e.made (ip_of s e.made.conn) r,
            opened e.made (ip_of s e.made.conn) reached
                (subst (λ k. MayOpen k e.made (ip_of s e.made.conn) r) same rules),
            Recorded-Represents e.entered rules.token q,
          )
    ]

-- The keys stay, and the tables refine the registry.
abbrev pub refining : Option (Map Bytes ℤ) → Invariant
refining keys = record {
  holds = λ clients per_ip auth. (keys_of auth ≡ keys) × Refines keys clients per_ip auth;
  may_close = λ ct. Unit;
  made = λ draws t subdomain token s c s' h e. (
    new_client_tunnel-keys_of draws t subdomain token s c s' e ∙ h.0,
    new_client_tunnel-Refines keys draws t subdomain token s c s' h.0 h.1 e,
  );
  removed = λ {ct} {s} may p h. (
    Removed-keys_of p ∙ h.0,
    let (r, reached, q) = h.1 in
        (
          close_tunnel ct (ip_of s ct.conn) r,
          closed ct (ip_of s ct.conn) reached,
          Removed-Represents p q,
        ),
  );
}

-- Nothing is open yet.
pub initially-Represents :
    (auth : Option AuthManager)
    → ((token : Bytes) → held_under auth token ≡ [])
    → Represents nothing_open [] [] auth
unfolding lookup
initially-Represents auth none_held = record {
  owner = λ id. refl;
  by_ip = λ ip. empty-Lists;
  by_token = λ token. subst (Lists empty_bag) (sym (none_held token)) empty-Lists;
}
