-- ===== src/Server/Registry/Frames.antt =====
-- internal/server/main.go: making and closing tunnels settles no request and puts none in flight.
use mmar.Prelude.Maps.{lookup}
use mmar.Prelude.{ℕ, ◌≡◌, refl, Bytes, Option, none, some, arith, nat_eq, ◌⊎◌, inl, inr, Bool-cases}
use mmar.Protocol.Conn.{Tunnel}
use mmar.Protocol.Types
use mmar.Protocol.{TunnelMessage}
use mmar.Server.Frame.{
  Frame, Frame-refl, Frame-trans, Frame-same, Frames, running-Frames, crashed-Frames, Frames-trans,
}
use mmar.Server.Keeps.{if_both}
use mmar.Server.Registry.{
  Choice, chosen, turned_down, undrawn, Refusal, send_on, send_error_and_close_write,
  close_write_on, close, close_drained, drain_channels, drained, close_connection,
  tunnel_limited_ip, initialized, with_shared, record_tunnel, announce, announced, limit_reached,
  register, by_choice, by_token, authenticate, choose_subdomain, new_client_tunnel, tunnel_made,
  ip_of, erase_at, unregister, close_client_tunnel, close_client_tunnel_or_conn,
}
use mmar.Server.State.{ClientTunnel, MmarServer, Running, running, crashed}

pub send_on-Frame : (c : ℕ) (m : TunnelMessage) (s : MmarServer) → Frame s (send_on c m s).1
unfolding send_on
send_on-Frame c m s = Frame-same (λ i. refl) (λ k. refl)

send_error-Frame :
    (msg_type c : ℕ) (s : MmarServer) → Frame s (send_error_and_close_write msg_type c s)
unfolding send_error_and_close_write close_write_on send_on
send_error-Frame msg_type c s = Frame-same (λ i. refl) (λ k. refl)

drained-Frame :
    (ct : ClientTunnel) (s : MmarServer) → Frame s (close_connection ct.conn (drained ct s))
unfolding close_connection drained
drained-Frame ct s = Frame-same (λ i. ground arith) (λ k. refl)

close-Frames : (ct : ClientTunnel) (s : MmarServer) → Frames s (close ct s)
unfolding close drain_channels close_drained
close-Frames ct s = elim (Bool-cases (s.shareds ct.shared).channels_closed) [
  | inl shut ↦ rw shut crashed-Frames
  | inr still_open ↦ rw still_open (running-Frames (drained-Frame ct s))
]

with_shared-Frame : (s : MmarServer) → Frame s (with_shared s)
unfolding with_shared
with_shared-Frame s = record {
  fewer = λ i req_id k h. unfold lookup in ground (arith, h);
  advances = λ k. inr refl;
}

initialized-Frame : (ip : Bytes) (s : MmarServer) → Frame s (tunnel_limited_ip s ip).1
unfolding tunnel_limited_ip initialized
initialized-Frame ip s = Frame-same (λ i. ground arith) (λ k. ground arith)

record_tunnel-Frame :
    (ct : ClientTunnel) (ip : Bytes) (s : MmarServer) → Frame s (record_tunnel ct ip s)
unfolding record_tunnel
record_tunnel-Frame ct ip s = Frame-same (λ i. refl) (λ k. refl)

announce-Frame : (ct : ClientTunnel) (s : MmarServer) → Frame s (announce ct s).1
unfolding announce announced send_on
announce-Frame ct s = Frame-same (λ i. ground arith) (λ k. ground arith)

unregister-Frame : (ct : ClientTunnel) (s : MmarServer) → Frame s (unregister ct s)
unfolding unregister erase_at
unregister-Frame ct s = Frame-same (λ i. ground arith) (λ k. ground arith)

pub close_client_tunnel-Frames :
    (ct : ClientTunnel) (s : MmarServer) → Frames s (close_client_tunnel ct s)
unfolding close_client_tunnel
close_client_tunnel-Frames ct s =
    Frames-trans (unregister-Frame ct s) (close-Frames ct (unregister ct s))

-- Closing a tunnel touches no exchange.
pub close_client_tunnel-exchanges :
    (ct : ClientTunnel) (s s' : MmarServer)
    → close_client_tunnel ct s ≡ running s'
    → s'.exchanges ≡ s.exchanges
unfolding close_client_tunnel close drain_channels close_drained drained close_connection unregister
    erase_at
close_client_tunnel-exchanges ct s s' h = ground (arith, h)

pub close_or_conn-Frames :
    (ct : Option ClientTunnel) (t : Tunnel) (s : MmarServer)
    → Frames s (close_client_tunnel_or_conn ct t s)
unfolding close_client_tunnel_or_conn close_connection
close_or_conn-Frames none t s = crashed-Frames
close_or_conn-Frames (some ct) t s =
    if_both (Frames s) _ (close_client_tunnel-Frames ct s)
      (running-Frames (Frame-same (λ i. refl) (λ k. refl)))

-- A step that gives something beside the server.
abbrev pub FramesBoth {ℓ} : {A : Type ℓ} → MmarServer → Running (A × MmarServer) → Type ℓ
FramesBoth {A} s r = (a : A) (s' : MmarServer) → r ≡ running (a, s') → Frame s s'

pub FramesBoth-running {ℓ} :
    {A : Type ℓ} {a : A} {s s' : MmarServer} → Frame s s' → FramesBoth s (running (a, s'))
FramesBoth-running {a} {s} {s'} f b u h = let e : s' ≡ u = cc in rw (← e) f

FramesBoth-trans {ℓ} :
    {A : Type ℓ} {s t : MmarServer} {r : Running (A × MmarServer)}
    → Frame s t
    → FramesBoth t r
    → FramesBoth s r
FramesBoth-trans f g a u h = Frame-trans f (g a u h)

pub Running-cases {ℓ} : {A : Type ℓ} (r : Running A) → ((a : A) × (r ≡ running a)) ⊎ (r ≡ crashed)
Running-cases (running a) = inl (a, refl)
Running-cases crashed = inr refl

limit_reached-Frames : (ct : ClientTunnel) (s : MmarServer) → FramesBoth s (limit_reached ct s)
unfolding limit_reached
limit_reached-Frames ct s c s' h =
    let q = send_error_and_close_write Types.client_tunnel_limit ct.conn s in
    elim (Running-cases (close ct q)) [
      | inl (u, e) ↦
          let same : u ≡ s' = ground (arith, e, h) in
          rw (← same) (
            Frame-trans (send_error-Frame Types.client_tunnel_limit ct.conn s)
              (close-Frames ct q u e))
      | inr e ↦ absurd (ground (arith, e, h))
    ]

register-Frames :
    (t : Tunnel) (name token : Bytes) (s : MmarServer) → FramesBoth s (register t name token s)
unfolding register
register-Frames t name token s =
    let ct = tunnel_made t name token s in
    let ip = ip_of s t.conn in
    let before = Frame-trans (with_shared-Frame s) (initialized-Frame ip (with_shared s)) in
    let q = (tunnel_limited_ip (with_shared s) ip).1 in
    if_both (FramesBoth s) _ (FramesBoth-trans before (limit_reached-Frames ct q)) (
      FramesBoth-running (
        Frame-trans before
          (Frame-trans (record_tunnel-Frame ct ip q) (announce-Frame ct (record_tunnel ct ip q)))))

by_choice-Frames :
    (t : Tunnel) (token : Bytes) (s : MmarServer) (ch : Choice)
    → FramesBoth s (by_choice t token s ch)
unfolding by_choice
by_choice-Frames t token s (chosen name) = register-Frames t name token s
by_choice-Frames t token s (turned_down msg_type why) =
    FramesBoth-running (send_error-Frame msg_type t.conn s)
by_choice-Frames t token s undrawn = FramesBoth-running (Frame-refl s)

by_token-Frames :
    (draws : ℕ → ℕ → ℕ) (t : Tunnel) (subdomain token : Bytes) (s : MmarServer)
    (o : Option (ℕ × Refusal))
    → FramesBoth s (by_token draws t subdomain token s o)
unfolding by_token
by_token-Frames draws t subdomain token s none =
    by_choice-Frames t token s (choose_subdomain s.clients draws subdomain)
by_token-Frames draws t subdomain token s (some (msg_type, why)) =
    FramesBoth-running (send_error-Frame msg_type t.conn s)

pub new_client_tunnel-Frames :
    (draws : ℕ → ℕ → ℕ) (t : Tunnel) (subdomain token : Bytes) (s : MmarServer)
    → FramesBoth s (new_client_tunnel draws t subdomain token s)
unfolding new_client_tunnel
new_client_tunnel-Frames draws t subdomain token s =
    by_token-Frames draws t subdomain token s (authenticate s.auth_manager token)
