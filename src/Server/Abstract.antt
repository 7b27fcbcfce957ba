-- ===== src/Server/Abstract.antt =====
-- internal/server/main.go: the registry as the operators of a server see it. Who has a name, and how
-- often a name is counted for an address and under a token; not in which order, nor in which
-- tables. A tunnel is opened only where the rules allow it, and closed at any time.
pub mod Bags
pub mod Promises
pub mod Holding
pub mod Refining
use mmar.Constants.{id_length, max_tunnels_per_ip}
use mmar.Prelude.Decimal.{ℤ}
use mmar.Prelude.Maps.{Map, lookup}
use mmar.Prelude.{
  ℕ, ◌+◌, ◌-◌, ◌<◌, ◌≡◌, true, Bytes, [], ◌∷◌, Option, none, some, eqn, length, if◌then◌else◌,
  bytes_eq, ◌==◌, ◌⊎◌,
}
use mmar.Server.Names.{is_valid_subdomain_name}
use mmar.Server.State.{ClientTunnel}

-- Names, each some number of times.
pub record Bag : Type 0 where
  pub size : ℕ
  pub times : Bytes → ℕ

abbrev pub empty_bag : Bag
empty_bag = record { size = 0; times = λ id. 0 }

abbrev pub put_in : Bytes → Bag → Bag
put_in id b = record {
  size = b.size + 1;
  times = λ x. if id == x then b.times x + 1 else b.times x;
}

-- One copy, if there is one.
abbrev pub take_out : Bytes → Bag → Bag
take_out id b = record {
  size = if eqn (b.times id) 0 then b.size else b.size - 1;
  times = λ x. if id == x then b.times x - 1 else b.times x;
}

pub record Registry : Type 0 where
  pub owner : Bytes → Option ClientTunnel
  pub by_ip : Bytes → Bag
  pub by_token : Bytes → Bag

abbrev pub nothing_open : Registry
nothing_open = record { owner = λ id. none; by_ip = λ ip. empty_bag; by_token = λ token. empty_bag }

abbrev pub change : (Bag → Bag) → Bytes → (Bytes → Bag) → Bytes → Bag
change f key bags x = if key == x then f (bags x) else bags x

-- Nothing is counted for clients without a token.
abbrev pub change_token : (Bag → Bag) → Bytes → (Bytes → Bag) → Bytes → Bag
change_token f [] bags x = bags x
change_token f (c ∷ token) bags x = change f (c ∷ token) bags x

abbrev pub open_tunnel : ClientTunnel → Bytes → Registry → Registry
open_tunnel ct ip r = record {
  owner = λ id. if ct.id == id then some ct else r.owner id;
  by_ip = change (put_in ct.id) ip r.by_ip;
  by_token = change_token (put_in ct.id) ct.auth_token r.by_token;
}

abbrev pub close_tunnel : ClientTunnel → Bytes → Registry → Registry
close_tunnel ct ip r = record {
  owner = λ id. if ct.id == id then none else r.owner id;
  by_ip = change (take_out ct.id) ip r.by_ip;
  by_token = change_token (take_out ct.id) ct.auth_token r.by_token;
}

-- A token that the keys allow: one of them, or none at all where there are no keys.
abbrev pub AllowsToken : Option (Map Bytes ℤ) → Bytes → Type 0
AllowsToken none token = token ≡ []
AllowsToken (some keys) token = (limit : ℤ) × (lookup token keys ≡ some limit)

-- A name that was asked for, or one of the length of the names that the server draws.
abbrev pub IsName : Bytes → Type 0
IsName id = (is_valid_subdomain_name id ≡ true) ⊎ (length id ≡ id_length)

-- The rules for opening a tunnel from an address: its token is allowed, its name is one, which only
-- a drawn name may take from another client, and the address has room.
pub record MayOpen (keys : Option (Map Bytes ℤ)) (ct : ClientTunnel) (ip : Bytes) (r : Registry)
    : Type 0 where
  pub token : AllowsToken keys ct.auth_token
  pub name :
      ((is_valid_subdomain_name ct.id ≡ true) × (r.owner ct.id ≡ none)) ⊎ (length ct.id ≡ id_length)
  pub room : (r.by_ip ip).size < max_tunnels_per_ip

-- The registries that openings by the rules and closings lead to.
pub data Reached (keys : Option (Map Bytes ℤ)) : Registry → Type 0 where
  initially : Reached keys nothing_open
  opened :
      {r : Registry} (ct : ClientTunnel) (ip : Bytes)
      → Reached keys r
      → MayOpen keys ct ip r
      → Reached keys (open_tunnel ct ip r)
  closed :
      {r : Registry} (ct : ClientTunnel) (ip : Bytes)
      → Reached keys r
      → Reached keys (close_tunnel ct ip r)
