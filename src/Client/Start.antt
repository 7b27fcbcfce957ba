-- ===== src/Client/Start.antt =====
-- internal/client/main.go: `Run`, up to the message that asks for a tunnel, and from the signal that
-- ends the client on. The dialer is a parameter.
use mmar.Client.{ConfigOptions, MmarClient, Going, exits, create_tunnel_data, send_or_exit}
use mmar.Prelude.{Bytes, [], Option, none, some}
use mmar.Protocol.Conn.{Conn, send_message}
use mmar.Protocol.Types
use mmar.Protocol.{TunnelMessage}

abbrev pub create_tunnel_msg : ConfigOptions → TunnelMessage
create_tunnel_msg config = record {
  msg_type = Types.create_tunnel;
  msg_data = create_tunnel_data config;
}

abbrev pub connected : ConfigOptions → Conn → MmarClient
connected config conn = record { config = config; conn = conn; subdomain = [] }

by_dial : ConfigOptions → Option Conn → Going MmarClient
by_dial config none = exits 0
by_dial config (some conn) = send_or_exit 0 (create_tunnel_msg config) (connected config conn)

unfoldable pub run_client : (Bytes → Bytes → Option Conn) → ConfigOptions → Going MmarClient
unfolding by_dial
run_client dial config = by_dial config (dial config.tunnel_host config.tunnel_tcp_port)

abbrev pub disconnect_msg : TunnelMessage
disconnect_msg = record { msg_type = Types.client_disconnect; msg_data = [] }

-- A failure to send is not looked at.
unfoldable pub shut_down : MmarClient → MmarClient
shut_down mc = record mc { conn = (send_message disconnect_msg mc.conn).1 }
