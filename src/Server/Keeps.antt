-- ===== src/Server/Keeps.antt =====
-- Shared by the proofs about responses, about the loop and about histories: properties of the server's
-- tables that every operation keeps, and the absence of a crash, as properties of what a step gives.
use mathlib.Core.Path.{subst}
use mmar.Prelude.{ℕ, Bytes, List, ◌≡◌, refl, Bool, true, false, Option, none, some, if◌then◌else◌}
use mmar.Protocol.Conn.{Tunnel, close_conn}
use mmar.Server.Registry.{
  Creation, new_client_tunnel, close_client_tunnel, close_client_tunnel_or_conn,
}
use mmar.Server.Registry.Closing.{Removed, close_needs_open, close_client_tunnel-Removed}
use mmar.Server.Registry.Invariant.{close-Removed}
use mmar.Auth.{AuthManager}
use mmar.Prelude.Maps.{Map}
use mmar.Server.State.{ClientTunnel, MmarServer, Running, running}

-- Both branches of a test have a property.
pub if_both {ℓ κ} :
    {A : Type ℓ} (Q : A → Type κ) (b : Bool) {x y : A} → Q x → Q y → Q (if b then x else y)
if_both Q true p q = p
if_both Q false p q = q

-- A property of the three tables that the making of a tunnel and the closing of certain tunnels keep.
pub record Invariant : Type 1 where
  pub holds : Map Bytes ClientTunnel → Map Bytes (List Bytes) → Option AuthManager → Type 0
  pub may_close : ClientTunnel → Type 0
  pub made :
      (draws : ℕ → ℕ → ℕ) (t : Tunnel) (subdomain token : Bytes) (s : MmarServer) (c : Creation)
      (s' : MmarServer)
      → holds s.clients s.tunnels_per_ip s.auth_manager
      → new_client_tunnel draws t subdomain token s ≡ running (c, s')
      → holds s'.clients s'.tunnels_per_ip s'.auth_manager
  pub removed :
      {ct : ClientTunnel} {s s' : MmarServer}
      → may_close ct
      → Removed ct s s'
      → holds s.clients s.tunnels_per_ip s.auth_manager
      → holds s'.clients s'.tunnels_per_ip s'.auth_manager

abbrev pub Holds : Invariant → MmarServer → Type 0
Holds I s = I.holds s.clients s.tunnels_per_ip s.auth_manager

abbrev pub MayClose : Invariant → Option ClientTunnel → Type 0
MayClose I none = Unit
MayClose I (some ct) = I.may_close ct

-- It holds of what is left, if anything is.
abbrev pub Keeps : Invariant → Running MmarServer → Type 0
Keeps I r = (s' : MmarServer) → r ≡ running s' → Holds I s'

pub running-Keeps : (I : Invariant) → {s : MmarServer} → Holds I s → Keeps I (running s)
running-Keeps I {s} capped s' h = let e : s ≡ s' = cc in subst (Holds I) e capped

pub close-Keeps :
    (I : Invariant)
    → (ct : ClientTunnel) (s : MmarServer) → I.may_close ct
    → Holds I s
    → Keeps I (close_client_tunnel ct s)
close-Keeps I ct s may capped s' h =
    I.removed may (close-Removed ct s s' (close_needs_open ct s s' h) h) capped

pub close_or_conn-Keeps :
    (I : Invariant)
    → (ct : Option ClientTunnel) (t : Tunnel) (s : MmarServer) → MayClose I ct
    → Holds I s
    → Keeps I (close_client_tunnel_or_conn ct t s)
unfolding close_client_tunnel_or_conn close_conn
close_or_conn-Keeps I none t s may capped = λ s' h. absurd (cc)
close_or_conn-Keeps I (some ct) t s may capped =
    if_both (Keeps I) _ (close-Keeps I ct s may capped) (running-Keeps I capped)

-- A step gives something.
abbrev pub Runs {ℓ} : {A : Type ℓ} → Running A → Type ℓ
Runs {A} r = (a : A) × (r ≡ running a)

-- A tunnel's channels are open.
abbrev pub HasChannels : ClientTunnel → MmarServer → Type 0
HasChannels ct s = (s.shareds ct.shared).channels_closed ≡ false

pub close-Runs :
    (ct : ClientTunnel) (s : MmarServer) → HasChannels ct s → Runs (close_client_tunnel ct s)
close-Runs ct s o = let (s', e, _) = close_client_tunnel-Removed ct s o in (s', e)

pub close_or_conn-Runs :
    (ct : ClientTunnel) (t : Tunnel) (s : MmarServer)
    → HasChannels ct s
    → Runs (close_client_tunnel_or_conn (some ct) t s)
unfolding close_client_tunnel_or_conn
close_or_conn-Runs ct t s o = if_both Runs _ (close-Runs ct s o) (_, refl)
