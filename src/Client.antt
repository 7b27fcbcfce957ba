-- ===== src/Client.antt =====
-- internal/client/main.go: the client, which keeps a connection to the server and forwards the
-- requests that come over it to a local server. The dialer, `net/http`'s reader of requests, the
-- local server behind `http.Client`, `url.Parse` and the certificate file are parameters.
pub mod Tunnels
pub mod Start
pub mod Rounds
pub mod Forwarding
use mmar.Constants.{request_id_buff_size}
use mmar.Prelude.Io.{
  Error, Outcome, ok, err, panic, eof, unexpected_eof, err_closed, econnrefused, deadline_exceeded,
  invalid_message_protocol_version,
}
use mmar.Prelude.Text.{join}
use mmar.Prelude.{
  ℕ, Bool, true, false, ◌||◌, Bytes, codes, List, [], ◌∷◌, ◌++◌, Option, none, some, eqn, ltb,
  length, take, drop, if◌then◌else◌,
}
use mmar.Protocol.Conn.{Conn, send_message}
use mmar.Protocol.Types
use mmar.Protocol.{TunnelMessage}

pub record ConfigOptions : Type 0 where
  pub local_port : Bytes
  pub tunnel_http_port : Bytes
  pub tunnel_tcp_port : Bytes
  pub tunnel_host : Bytes
  pub custom_dns : Bytes
  pub custom_cert : Bytes
  pub custom_name : Bytes
  pub api_key : Bytes

pub record MmarClient : Type 0 where
  pub config : ConfigOptions
  pub open config use *
  pub conn : Conn
  pub subdomain : Bytes

-- What a step of the client comes to: it goes on, the function returns, the process exits with a
-- code, or a panic ends it.
pub data Going {ℓ} (A : Type ℓ) : Type ℓ where
  goes_on : A → Going A
  returned : Going A
  exits : ℕ → Going A
  crashed : Going A

is_empty : Bytes → Bool
is_empty [] = true
is_empty (c ∷ s) = false

-- The data of the `CreateTunnel` message that `Run` sends.
unfoldable pub create_tunnel_data : ConfigOptions → Bytes
unfolding is_empty
create_tunnel_data config =
    if is_empty config.custom_name
    then (if is_empty config.api_key
        then []
        else join b'|' (config.custom_name ∷ config.api_key ∷ []))
    else join b'|' (config.custom_name ∷ config.api_key ∷ [])

unfoldable pub reclaim_data : MmarClient → Bytes
unfolding is_empty
reclaim_data mc = if is_empty mc.api_key then mc.subdomain else mc.subdomain ++ b'|' ∷ mc.api_key

sent_or_exits : ℕ → MmarClient → Option Error × Conn → Going MmarClient
sent_or_exits code mc (none, conn) = goes_on (record mc { conn = conn })
sent_or_exits code mc (some e, conn) = exits code

-- A message, with the code by which the process exits when it cannot be sent.
unfoldable pub send_or_exit : ℕ → TunnelMessage → MmarClient → Going MmarClient
unfolding sent_or_exits
send_or_exit code m mc = sent_or_exits code mc (send_message m mc.conn)

-- A round of `reconnectTunnel`: whether the context is cancelled by then, and what dialing gives.
pub record Attempt : Type 0 where
  pub cancelled : Bool
  pub dialed : Option Conn

reclaim_message : MmarClient → TunnelMessage
reclaim_message mc = record { msg_type = Types.reclaim_tunnel; msg_data = reclaim_data mc }

reclaim_over : MmarClient → Conn → Going MmarClient
unfolding reclaim_message
reclaim_over mc conn = send_or_exit 0 (reclaim_message mc) (record mc { conn = conn })

-- With no attempt left the client is still trying.
unfoldable pub reconnect_tunnel : List Attempt → MmarClient → Option (Going MmarClient)
unfolding reclaim_over
reconnect_tunnel [] mc = none
reconnect_tunnel (a ∷ attempts) mc =
    let rest = reconnect_tunnel attempts mc in
    if a.cancelled
    then some (goes_on mc)
    else elim a.dialed [ none ↦ rest | some conn ↦ some (reclaim_over mc conn) ]

-- What the certificate file holds: nothing that can be read, no certificate, or one.
pub data Certificate : Type 0 where
  unreadable unparsed loaded : Certificate

-- What `http.ReadRequest` gives: the request's URI, or an error.
pub data ParsedRequest : Type 0 where
  request_uri : Bytes → ParsedRequest
  request_failed : Error → ParsedRequest

-- What the local server gives: the response as `resp.Write` prints it, or an error, of which
-- `context.DeadlineExceeded` is the deadline's.
pub data Forwarded : Type 0 where
  response : Bytes → Forwarded
  forward_failed : Error → Forwarded

-- A client for HTTP with a certificate needs the transport that a custom DNS gives it.
by_certificate : Bytes → Certificate → Going (Unit {0})
unfolding is_empty
by_certificate custom_dns unreadable = exits 1
by_certificate custom_dns unparsed = goes_on tt
by_certificate custom_dns loaded = if is_empty custom_dns then crashed else goes_on tt

set_up : (Bytes → Certificate) → ConfigOptions → Going (Unit {0})
unfolding is_empty by_certificate
set_up certificate config =
    if is_empty config.custom_cert
    then goes_on tt
    else by_certificate config.custom_dns (certificate config.custom_cert)

-- The message that a failure of the local server is told by.
failure_type : Error → ℕ
failure_type econnrefused = Types.localhost_not_running
failure_type unexpected_eof = Types.localhost_not_running
failure_type eof = Types.localhost_not_running
failure_type deadline_exceeded = Types.dest_request_timedout
failure_type e = Types.invalid_resp_from_dest

-- The message back, with the request's id in front.
unfoldable pub reply_message : Bytes → Forwarded → TunnelMessage
unfolding failure_type
reply_message req_id (response written) = record {
  msg_type = Types.response;
  msg_data = req_id ++ written;
}
reply_message req_id (forward_failed e) = record { msg_type = failure_type e; msg_data = req_id }

read_failure : Error → ℕ
read_failure eof = 0
read_failure err_closed = 0
read_failure e = 1

-- `localizeRequest`: the URL that the request is sent to.
unfoldable pub local_url : ConfigOptions → Bytes → Bytes
local_url config uri = codes "http://localhost:" ++ config.local_port ++ uri

module _ (certificate : Bytes → Certificate) (read_request : Bytes → ParsedRequest)
    (url_parses : Bytes → Bool) (forward : Bytes → Bytes → Forwarded) where
  by_request : MmarClient → Bytes → Bytes → ParsedRequest → Going MmarClient
  unfolding read_failure
  by_request mc req_id request (request_failed e) = exits (read_failure e)
  by_request mc req_id request (request_uri uri) =
      let url = local_url mc.config uri in
      let sent = send_or_exit 1 (reply_message req_id (forward url request)) mc in
      if url_parses url then sent else exits 1

  handle_data : MmarClient → Bytes → Going MmarClient
  unfolding by_request
  handle_data mc data_read =
      if ltb (length data_read) request_id_buff_size
      then goes_on mc
      else by_request mc (take request_id_buff_size data_read) (drop request_id_buff_size data_read)
          (read_request (drop request_id_buff_size data_read))

  by_set_up : MmarClient → Bytes → Going (Unit {0}) → Going MmarClient
  unfolding handle_data
  by_set_up mc data_read (goes_on _) = handle_data mc data_read
  by_set_up mc data_read returned = returned
  by_set_up mc data_read (exits code) = exits code
  by_set_up mc data_read crashed = crashed

  handle_request_message : MmarClient → TunnelMessage → Going MmarClient
  unfolding by_set_up set_up
  handle_request_message mc msg = by_set_up mc msg.msg_data (set_up certificate mc.config)

  -- The `switch` on the message's type; a type that it does not name has no effect.
  react : MmarClient → TunnelMessage → Going MmarClient
  unfolding handle_request_message
  react mc msg =
      if eqn msg.msg_type Types.tunnel_created || eqn msg.msg_type Types.tunnel_reclaimed
      then goes_on (record mc { subdomain = msg.msg_data })
      else if eqn msg.msg_type Types.client_tunnel_limit
      then exits 0
      else if eqn msg.msg_type Types.invalid_subdomain_name
      then exits 0
      else if eqn msg.msg_type Types.subdomain_already_taken
      then exits 0
      else if eqn msg.msg_type Types.auth_token_required
      then exits 0
      else if eqn msg.msg_type Types.auth_token_invalid
      then exits 0
      else if eqn msg.msg_type Types.auth_token_limit_exceeded
      then exits 0
      else if eqn msg.msg_type Types.request
      then handle_request_message mc msg
      else if eqn msg.msg_type Types.heartbeat_from_server
      then send_or_exit 0 (record { msg_type = Types.heartbeat_ack; msg_data = [] }) mc
      else goes_on mc

  received_error : Bool → List Attempt → MmarClient → Error → Option (Going MmarClient)
  received_error true attempts mc e = some returned
  received_error false attempts mc invalid_message_protocol_version = some (exits 0)
  received_error false attempts mc e = reconnect_tunnel attempts mc

  -- A round of `ProcessTunnelMessages`, by what was received and whether the context is cancelled
  -- by then; `none` while the client tries to reconnect.
  unfoldable pub process_tunnel_message :
      Bool → List Attempt → MmarClient → Outcome TunnelMessage → Option (Going MmarClient)
  unfolding react received_error
  process_tunnel_message cancelled attempts mc (ok msg) = some (react mc msg)
  process_tunnel_message cancelled attempts mc (err e) = received_error cancelled attempts mc e
  process_tunnel_message cancelled attempts mc panic = some crashed

-- The timer of a round.
unfoldable pub send_heartbeat : MmarClient → Going MmarClient
send_heartbeat mc =
    send_or_exit 0 (record { msg_type = Types.heartbeat_from_client; msg_data = [] }) mc
