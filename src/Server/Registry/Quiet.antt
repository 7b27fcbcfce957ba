-- ===== src/Server/Registry/Quiet.antt =====
-- internal/server/main.go: making and closing tunnels touches no exchange.
use mmar.Prelude.{ℕ, ◌≡◌, Bytes, Option, none, some, arith, nat_eq}
use mmar.Protocol.Conn.{Tunnel}
use mmar.Server.Registry.{
  Creation, Refusal, send_on, send_error_and_close_write, close_write_on, close, close_drained,
  drain_channels, drained, close_connection, tunnel_limited_ip, initialized, with_shared,
  record_tunnel, announce, announced, limit_reached, register, by_choice, by_token, Choice, chosen,
  turned_down, undrawn, new_client_tunnel, close_client_tunnel_or_conn, authenticate,
  choose_subdomain,
}
use mmar.Server.Registry.Frames.{close_client_tunnel-exchanges}
use mmar.Server.State.{ClientTunnel, MmarServer, running}

register-exchanges :
    (t : Tunnel) (name token : Bytes) (s : MmarServer) (c : Creation) (s' : MmarServer)
    → register t name token s ≡ running (c, s')
    → s'.exchanges ≡ s.exchanges
unfolding register limit_reached close drain_channels close_drained drained close_connection
    send_error_and_close_write close_write_on send_on announce announced record_tunnel
    tunnel_limited_ip initialized with_shared
register-exchanges t name token s c s' h = ground (arith, h)

by_choice-exchanges :
    (t : Tunnel) (token : Bytes) (s : MmarServer) (ch : Choice) (c : Creation) (s' : MmarServer)
    → by_choice t token s ch ≡ running (c, s')
    → s'.exchanges ≡ s.exchanges
unfolding by_choice send_error_and_close_write close_write_on send_on
by_choice-exchanges t token s (chosen name) c s' h = register-exchanges t name token s c s' h
by_choice-exchanges t token s (turned_down msg_type why) c s' h = ground (arith, h)
by_choice-exchanges t token s undrawn c s' h = ground (arith, h)

by_token-exchanges :
    (draws : ℕ → ℕ → ℕ) (t : Tunnel) (subdomain token : Bytes) (s : MmarServer)
    (o : Option (ℕ × Refusal)) (c : Creation) (s' : MmarServer)
    → by_token draws t subdomain token s o ≡ running (c, s')
    → s'.exchanges ≡ s.exchanges
unfolding by_token send_error_and_close_write close_write_on send_on
by_token-exchanges draws t subdomain token s none c s' h =
    by_choice-exchanges t token s (choose_subdomain s.clients draws subdomain) c s' h
by_token-exchanges draws t subdomain token s (some (msg_type, why)) c s' h = ground (arith, h)

-- Whatever comes of a request for a tunnel, no exchange is touched.
pub new_client_tunnel-exchanges :
    (draws : ℕ → ℕ → ℕ) (t : Tunnel) (subdomain token : Bytes) (s : MmarServer) (c : Creation)
    (s' : MmarServer)
    → new_client_tunnel draws t subdomain token s ≡ running (c, s')
    → s'.exchanges ≡ s.exchanges
unfolding new_client_tunnel
new_client_tunnel-exchanges draws t subdomain token s c s' h =
    by_token-exchanges draws t subdomain token s (authenticate s.auth_manager token) c s' h

pub close_or_conn-exchanges :
    (ct : Option ClientTunnel) (t : Tunnel) (s s' : MmarServer)
    → close_client_tunnel_or_conn ct t s ≡ running s'
    → s'.exchanges ≡ s.exchanges
unfolding close_client_tunnel_or_conn close_connection
close_or_conn-exchanges none t s s' h = absurd (cc)
close_or_conn-exchanges (some ct) t s s' h =
    ground (arith, h, close_client_tunnel-exchanges ct s s')
