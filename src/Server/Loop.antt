-- ===== src/Server/Loop.antt =====
-- internal/server/main.go: the loop that reads a connection's
-- messages. One call is one round; the goroutines that a round starts run at its end. The names
-- that the server draws, `net/http`'s reader of responses and its writer are parameters. A
-- heartbeat that falls due is a call of its own.
pub mod Cases
pub mod Safety
pub mod NoCrash
pub mod Leak
pub mod Parsing
pub mod Spawning
pub mod Frames
pub mod Quiet
use mmar.Http.{ServerResponse}
use mmar.Prelude.Io.{Error, Outcome, ok, err, panic}
use mmar.Prelude.Maps.{lookup}
use mmar.Prelude.Text.{split}
use mmar.Prelude.{
  ℕ, Bool, true, false, Bytes, codes, List, [], ◌∷◌, ◌++◌, Option, none, some, bytes_eq, eqn,
  if◌then◌else◌,
}
use mmar.Protocol.Conn.{Tunnel}
use mmar.Protocol.Errors.{tunnel_err_state}
use mmar.Protocol.Types
use mmar.Protocol.{TunnelMessage}
use mmar.Server.Registry.{
  Creation, created, refused, new_client_tunnel, close_client_tunnel_or_conn, send_on,
}
use mmar.Server.Requests.{ParsedResponse, handle_response_messages}
use mmar.Server.Serialize.{create_serialized_server_resp}
use mmar.Server.State.{ClientTunnel, MmarServer, Running, running, crashed}
use mmar.Utils.{network_error}

-- What the loop does after a round: another one, with the tunnel that it has, or none.
pub data Next : Type 0 where
  again : Option ClientTunnel → Next
  stop : Next

second_part : List Bytes → Bytes
second_part [] = []
second_part (token ∷ parts) = token

name_and_token : List Bytes → Bytes × Bytes
unfolding second_part
name_and_token [] = ([], [])
name_and_token (name ∷ parts) = (name, second_part parts)

-- The data of a `CreateTunnel` or `ReclaimTunnel` message: a name, and a token behind a bar.
unfoldable pub parse_tunnel_data : Bytes → Bytes × Bytes
unfolding name_and_token
parse_tunnel_data [] = ([], [])
parse_tunnel_data (c ∷ s) = name_and_token (split b'|' (c ∷ s))

abbrev pub then_stop : Running MmarServer → Running (Next × MmarServer)
then_stop (running s) = running (stop, s)
then_stop crashed = crashed

abbrev then_again : Option ClientTunnel → Running MmarServer → Running (Next × MmarServer)
then_again ct (running s) = running (again ct, s)
then_again ct crashed = crashed

-- With an error the function returns, and closes nothing.
abbrev pub after_creation : Running (Creation × MmarServer) → Running (Next × MmarServer)
after_creation crashed = crashed
after_creation (running (created ct, s)) = running (again (some ct), s)
after_creation (running (refused why, s)) = running (stop, s)

abbrev after_send :
    Option ClientTunnel → Tunnel → Option Error × MmarServer → Running (Next × MmarServer)
after_send ct t (none, s) = running (again ct, s)
after_send ct t (some e, s) = then_stop (close_client_tunnel_or_conn ct t s)

module _ (write_response : ServerResponse → Bytes) where
  -- The response that the server makes up when the client has none: the message's data is the id.
  abbrev made_up : ℕ → Bytes → ℕ → TunnelMessage → TunnelMessage
  made_up err_state status status_code msg = record {
    msg_type = Types.response;
    msg_data =
        msg.msg_data
        ++ create_serialized_server_resp write_response status status_code
            (tunnel_err_state err_state);
  }

  -- The message that a round hands to a goroutine of its own, if it does so.
  unfoldable pub response_of : TunnelMessage → Option TunnelMessage
  response_of msg =
      if eqn msg.msg_type Types.response
      then some msg
      else if eqn msg.msg_type Types.localhost_not_running
      then some (made_up Types.localhost_not_running (codes "200 OK") 200 msg)
      else if eqn msg.msg_type Types.dest_request_timedout
      then some (made_up Types.dest_request_timedout (codes "200 OK") 200 msg)
      else if eqn msg.msg_type Types.invalid_resp_from_dest
      then some (made_up Types.invalid_resp_from_dest (codes "500 Internal Server Error") 500 msg)
      else none

module _ (draws : ℕ → ℕ → ℕ) (read_response : ℕ → Bytes → ParsedResponse)
    (write_response : ServerResponse → Bytes) where
  unfoldable pub create : Tunnel → Bytes × Bytes → MmarServer → Running (Next × MmarServer)
  create t (name, token) s = after_creation (new_client_tunnel draws t name token s)

  pub reclaim_if :
      Option ClientTunnel
      → Option ClientTunnel
      → Tunnel
      → Bytes × Bytes
      → MmarServer
      → Running (Next × MmarServer)
  unfolding create
  reclaim_if (some other) ct t request s = then_stop (close_client_tunnel_or_conn ct t s)
  reclaim_if none ct t request s = create t request s

  reclaim : Option ClientTunnel → Tunnel → Bytes × Bytes → MmarServer → Running (Next × MmarServer)
  unfolding reclaim_if
  reclaim ct t (name, token) s = reclaim_if (lookup name s.clients) ct t (name, token) s

  failed_response :
      ℕ → Bytes → ℕ → Option ClientTunnel → TunnelMessage → MmarServer → Running (Next × MmarServer)
  failed_response err_state status status_code ct msg s = then_again ct (
      handle_response_messages read_response ct
        (made_up write_response err_state status status_code msg) s)

  heartbeat_ack : Option ClientTunnel → Tunnel → MmarServer → Running (Next × MmarServer)
  heartbeat_ack ct t s =
      after_send ct t (send_on t.conn (record { msg_type = Types.heartbeat_ack; msg_data = [] }) s)

  -- The `switch` on the message's type.
  pub dispatch :
      Option ClientTunnel → Tunnel → TunnelMessage → MmarServer → Running (Next × MmarServer)
  unfolding create reclaim failed_response heartbeat_ack
  dispatch ct t msg s =
      if eqn msg.msg_type Types.create_tunnel
      then create t (parse_tunnel_data msg.msg_data) s
      else if eqn msg.msg_type Types.reclaim_tunnel
      then reclaim ct t (parse_tunnel_data msg.msg_data) s
      else if eqn msg.msg_type Types.response
      then then_again ct (handle_response_messages read_response ct msg s)
      else if eqn msg.msg_type Types.localhost_not_running
      then failed_response Types.localhost_not_running (codes "200 OK") 200 ct msg s
      else if eqn msg.msg_type Types.dest_request_timedout
      then failed_response Types.dest_request_timedout (codes "200 OK") 200 ct msg s
      else if eqn msg.msg_type Types.client_disconnect
      then then_stop (close_client_tunnel_or_conn ct t s)
      else if eqn msg.msg_type Types.heartbeat_from_client
      then heartbeat_ack ct t s
      else if eqn msg.msg_type Types.invalid_resp_from_dest
      then failed_response Types.invalid_resp_from_dest (codes "500 Internal Server Error") 500 ct
          msg s
      else running (again ct, s)

  -- A round, by what was received. Only an error of the network ends the loop.
  unfoldable pub process_message :
      Option ClientTunnel
      → Tunnel
      → Outcome TunnelMessage
      → MmarServer
      → Running (Next × MmarServer)
  unfolding dispatch
  process_message ct t panic s = crashed
  process_message ct t (err e) s =
      if network_error e
      then then_stop (close_client_tunnel_or_conn ct t s)
      else running (again ct, s)
  process_message ct t (ok msg) s = dispatch ct t msg s

abbrev after_heartbeat :
    Option ClientTunnel → Tunnel → Option Error × MmarServer → Running MmarServer
after_heartbeat ct t (none, s) = running s
after_heartbeat ct t (some e, s) = close_client_tunnel_or_conn ct t s

-- The timer of a round: nothing was read for a while.
unfoldable pub send_heartbeat : Option ClientTunnel → Tunnel → MmarServer → Running MmarServer
send_heartbeat ct t s =
    after_heartbeat ct t
      (send_on t.conn (record { msg_type = Types.heartbeat_from_server; msg_data = [] }) s)
