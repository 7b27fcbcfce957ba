-- ===== src/Server/Registry/After.antt =====
-- internal/server/main.go: the state behind a request for a tunnel.
use mmar.Server.Registry.Tables.{SameTables, Recorded}
use mathlib.Core.Path.{subst}
use mmar.Prelude.{ℕ, ◌≡◌, sym, ◌∙◌, Bytes, none, bytes_eq, ◌⊎◌, inl, inr}
use mmar.Protocol.Conn.{Tunnel}
use mmar.Server.Registry.{
  Refusal, unique_subdomain_not_sent, Creation, created, refused, authenticate, chosen,
  choose_subdomain, new_client_tunnel,
}
use mmar.Server.State.{ClientTunnel, MmarServer, Running, running}
use mmar.Server.Registry.Spec.{unchanged, recorded, new_client_tunnel-Made}

-- What entered the tables, if anything did.
pub record Entered (draws : ℕ → ℕ → ℕ) (t : Tunnel) (subdomain token : Bytes) (s s' : MmarServer)
    : Type 0 where
  pub made : ClientTunnel
  pub passed : authenticate s.auth_manager token ≡ none
  pub picked : choose_subdomain s.clients draws subdomain ≡ chosen made.id
  pub token_kept : made.auth_token ≡ token
  pub conn_kept : made.conn ≡ t.conn
  pub entered : Recorded made s s'

running-injective {ℓ κ} :
    {A : Type ℓ} {B : Type κ} {a c : A} {b d : B}
    → ◌≡◌ {A = Running (A × B)} (running (a, b)) (running (c, d))
    → (a ≡ c) × (b ≡ d)
running-injective h = (cc, cc)

-- The state behind a request for a tunnel, by what was answered.
pub new_client_tunnel-after :
    (draws : ℕ → ℕ → ℕ) (t : Tunnel) (subdomain token : Bytes) (s : MmarServer) (c : Creation)
    (s' : MmarServer)
    → new_client_tunnel draws t subdomain token s ≡ running (c, s')
    → (((why : Refusal) × (c ≡ refused why)) × SameTables s s')
      ⊎ ((e : Entered draws t subdomain token s s') × ((c ≡ created e.made)
            ⊎ (c ≡ refused unique_subdomain_not_sent)))
new_client_tunnel-after draws t subdomain token s c s' h =
    elim (new_client_tunnel-Made draws t subdomain token s) [
      | unchanged why s1 e reason same ↦
          let (answer, state) = running-injective (sym h ∙ e) in
          inl ((why, answer), subst (SameTables s) (sym state) same)
      | recorded ct c1 s1 e result passed admitted picked token_kept conn_kept entered ↦
          let (answer, state) = running-injective (sym h ∙ e) in
          inr (
            record {
              made = ct;
              passed = passed;
              picked = picked;
              token_kept = token_kept;
              conn_kept = conn_kept;
              entered = subst (Recorded ct s) (sym state) entered;
            },
            rw answer result,
          )
    ]
