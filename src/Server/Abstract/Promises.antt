-- ===== src/Server/Abstract/Promises.antt =====
-- internal/server/main.go: what the rules for opening tunnels promise.
use mathlib.Core.Path.{subst}
use mmar.Constants.{max_tunnels_per_ip}
use mmar.Prelude.Decimal.{ℤ}
use mmar.Prelude.Maps.{Map}
use mmar.Prelude.{
  ◌≤◌, ◌<◌, ◌≡◌, Bytes, Option, some, arith, bytes_eq, ◌==◌, inl, inr, Bool-cases, eq_of_beq,
}
use mmar.Server.Abstract.{
  Registry, AllowsToken, IsName, MayOpen, Reached, initially, opened, closed,
}
use mmar.Server.State.{ClientTunnel}

-- No address has more tunnels counted than it may.
pub Reached-IsCapped :
    {keys : Option (Map Bytes ℤ)} {r : Registry}
    → Reached keys r
    → (ip : Bytes) → (r.by_ip ip).size ≤ max_tunnels_per_ip
Reached-IsCapped initially ip = omega arith
Reached-IsCapped (opened {r} ct here reached rules) ip = elim (Bool-cases (here == ip)) [
  | inl same ↦
      let room =
        subst (λ a. (r.by_ip a).size < max_tunnels_per_ip) (eq_of_beq here ip same) rules.room in
      ground arith
  | inr other ↦ ground (arith, Reached-IsCapped reached ip)
]
Reached-IsCapped (closed {r} ct here reached) ip = ground (arith, Reached-IsCapped reached ip)

-- Whoever has a name stands under it, with a token that the keys allow, and the name is one.
pub record IsProper (keys : Option (Map Bytes ℤ)) (id : Bytes) (ct : ClientTunnel) : Type 0 where
  pub own : ct.id ≡ id
  pub name : IsName id
  pub token : AllowsToken keys ct.auth_token

MayOpen-IsName :
    {keys : Option (Map Bytes ℤ)} {ct : ClientTunnel} {ip : Bytes} {r : Registry}
    → MayOpen keys ct ip r
    → IsName ct.id
MayOpen-IsName rules = elim rules.name [ inl (valid, free) ↦ inl valid | inr drawn ↦ inr drawn ]

pub Reached-IsProper :
    {keys : Option (Map Bytes ℤ)} {r : Registry} (id : Bytes) (ct : ClientTunnel)
    → Reached keys r
    → r.owner id ≡ some ct
    → IsProper keys id ct
Reached-IsProper id ct initially h = absurd (cc)
Reached-IsProper {keys} id ct (opened {r} new ip reached rules) h =
    elim (Bool-cases (new.id == id)) [
      | inl same ↦
          let this : new ≡ ct = ground (arith, h, same) in
          subst (IsProper keys id) this (record {
            own = eq_of_beq new.id id same;
            name = subst IsName (eq_of_beq new.id id same) (MayOpen-IsName rules);
            token = rules.token;
          })
      | inr other ↦ Reached-IsProper id ct reached (ground (arith, h, other))
    ]
Reached-IsProper id ct (closed gone ip reached) h =
    Reached-IsProper id ct reached (ground (arith, h))
