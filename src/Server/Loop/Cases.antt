-- ===== src/Server/Loop/Cases.antt =====
-- internal/server/main.go: the branches of the `switch` on the message's type.
use mmar.Http.{ServerResponse}
use mmar.Prelude.Maps.{lookup}
use mmar.Prelude.{ℕ, Bytes, [], Option, bytes_eq, eqn}
use mmar.Protocol.Conn.{Tunnel}
use mmar.Protocol.Types
use mmar.Protocol.{TunnelMessage}
use mmar.Server.Keeps.{if_both}
use mmar.Server.Loop.{
  Next, again, parse_tunnel_data, then_stop, then_again, after_send, create, reclaim_if, reclaim,
  failed_response, heartbeat_ack, dispatch,
}
use mmar.Server.Registry.{close_client_tunnel_or_conn, send_on}
use mmar.Server.Requests.{ParsedResponse, handle_response_messages}
use mmar.Server.State.{ClientTunnel, MmarServer, Running, running}

module _ (draws : ℕ → ℕ → ℕ) (read_response : ℕ → Bytes → ParsedResponse)
    (write_response : ServerResponse → Bytes) where
  -- The branches of the switch, for any property of a round.
  pub dispatch_cases {κ} :
      (Q : Running (Next × MmarServer) → Type κ) (ct : Option ClientTunnel) (t : Tunnel)
      (msg : TunnelMessage) (s : MmarServer)
      → ((request : Bytes × Bytes) → Q (create draws read_response write_response t request s))
      → ((other : Option ClientTunnel) (request : Bytes × Bytes)
          → Q (reclaim_if draws read_response write_response other ct t request s))
      → ((m : TunnelMessage) → Q (then_again ct (handle_response_messages read_response ct m s)))
      → Q (then_stop (close_client_tunnel_or_conn ct t s))
      → Q (
          after_send ct t
            (send_on t.conn (record { msg_type = Types.heartbeat_ack; msg_data = [] }) s))
      → Q (running (again ct, s))
      → Q (dispatch draws read_response write_response ct t msg s)
  unfolding dispatch reclaim failed_response heartbeat_ack
  dispatch_cases Q ct t msg s made reclaimed response closed beat rest =
      if_both Q (eqn msg.msg_type Types.create_tunnel) (made (parse_tunnel_data msg.msg_data)) (
        if_both Q (eqn msg.msg_type Types.reclaim_tunnel)
          (reclaimed (lookup (parse_tunnel_data msg.msg_data).0 s.clients)
            (parse_tunnel_data msg.msg_data))
          (if_both Q (eqn msg.msg_type Types.response) (response msg) (
            if_both Q (eqn msg.msg_type Types.localhost_not_running) (response _) (
              if_both Q (eqn msg.msg_type Types.dest_request_timedout) (response _) (
                if_both Q (eqn msg.msg_type Types.client_disconnect) closed (
                  if_both Q (eqn msg.msg_type Types.heartbeat_from_client) beat (
                    if_both Q (eqn msg.msg_type Types.invalid_resp_from_dest) (response _)
                      rest)))))))
