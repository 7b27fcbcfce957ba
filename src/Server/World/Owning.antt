-- ===== src/Server/World/Owning.antt =====
-- internal/server/main.go: a client keeps its name, whatever others do.
use mmar.Http.{ServerResponse}
use mmar.Constants.{id_length}
use mmar.Prelude.Maps.{Map, lookup, lookup-insert, lookup-delete}
use mmar.Prelude.{
  ℕ, ◌≡◌, ◌≢◌, ◌∙◌, ap, Bytes, List, some, arith, bytes_eq, ◌==◌, length, inl, inr, Bool-cases,
  eq_of_beq, beq_of_ne,
}
use mmar.Protocol.Conn.{Tunnel}
use mmar.Server.Keeps.{Invariant}
use mmar.Server.Registry.After.{Entered, new_client_tunnel-after}
use mmar.Server.Registry.Chosen.{choose_subdomain-cases}
use mmar.Server.Registry.Closing.{Removed}
use mmar.Server.Registry.{Creation, new_client_tunnel}
use mmar.Server.Requests.{ParsedResponse}
use mmar.Server.State.{ClientTunnel, MmarServer, running}
use mmar.Server.World.Keeping.{AllActFor, Reach-Holds_acting}
use mmar.Server.World.{World, Reach}

-- A custom name that is a client's.
module _ (name : Bytes) (ct : ClientTunnel) (custom : length name ≢ id_length) where
  Entered-owned :
      {draws : ℕ → ℕ → ℕ} {t : Tunnel} {subdomain token : Bytes} {s s' : MmarServer}
      → Entered draws t subdomain token s s'
      → lookup name s.clients ≡ some ct
      → lookup name s'.clients ≡ some ct
  Entered-owned {draws} {subdomain} {s} e owned = elim (Bool-cases (e.made.id == name)) [
    | inl same ↦
        let this = eq_of_beq e.made.id name same in
        elim (choose_subdomain-cases draws s.clients subdomain e.made.id e.picked) [
          | inl (valid, free) ↦ absurd (ground (arith, rw this at free, owned))
          | inr drawn ↦ absurd (custom (rw this at drawn))
        ]
    | inr other ↦ ground (
      arith,
      ap (lookup name) e.entered.clients,
      lookup-insert e.made.id name e.made s.clients,
      other,
      owned,
    )
  ]

  new_client_tunnel-owned :
      (draws : ℕ → ℕ → ℕ) (t : Tunnel) (subdomain token : Bytes) (s : MmarServer) (c : Creation)
      (s' : MmarServer)
      → lookup name s.clients ≡ some ct
      → new_client_tunnel draws t subdomain token s ≡ running (c, s')
      → lookup name s'.clients ≡ some ct
  new_client_tunnel-owned draws t subdomain token s c s' owned h =
      elim (new_client_tunnel-after draws t subdomain token s c s' h) [
        | inl (_, same) ↦ ap (lookup name) same.clients ∙ owned
        | inr (e, _) ↦ Entered-owned e owned
      ]

  Removed-owned :
      {other : ClientTunnel} {s s' : MmarServer}
      → other.id ≢ name
      → Removed other s s'
      → lookup name s.clients ≡ some ct
      → lookup name s'.clients ≡ some ct
  Removed-owned {other} {s} differs p owned =
      ap (lookup name) p.clients
      ∙ ground
          (arith, lookup-delete other.id name s.clients, beq_of_ne other.id name differs, owned)

  abbrev owning : Invariant
  owning = record {
    holds = λ clients per_ip auth. lookup name clients ≡ some ct;
    may_close = λ other. other.id ≢ name;
    made = new_client_tunnel-owned;
    removed = λ differs p owned. Removed-owned differs p owned;
  }

  module _ (read_response : ℕ → Bytes → ParsedResponse) (write_response : ServerResponse → Bytes)
      (write_headers : Map Bytes (List Bytes) → Bytes) where
    -- Over any history of the server, in any order of the steps of its goroutines, in which no
    -- round, no heartbeat and no response is one of a tunnel with a certain name: the client that
    -- has this name keeps it, unless the name is as long as those that the server draws. Nobody
    -- else can take it, and the end of no other tunnel gives it up.
    pub Reach-owned :
        {w v : World} (reach : Reach read_response write_response write_headers w v)
        → AllActFor read_response write_response write_headers (λ other. other.id ≢ name) reach
        → lookup name w.server.clients ≡ some ct
        → lookup name v.server.clients ≡ some ct
    Reach-owned reach others owned =
        Reach-Holds_acting read_response write_response write_headers owning reach others owned
