-- ===== src/Server/Requests.antt =====
-- internal/server/main.go: the statistics page, the handling of an HTTP request
-- and of a response that comes back over the tunnel. A
-- handler is split where it waits: `begin` up to its second `select`, `finish` from there on.
-- The JSON encoder, `net/http`'s reader of responses and the check of credentials are parameters.
pub mod Headers
pub mod Delivery
pub mod Failing
pub mod Keeping
pub mod Frames
pub mod Answering
use mmar.Constants.{request_id_buff_size}
use mmar.Http.{ResponseWriter, set_header, add_header, write_header, write, status_ok}
use mmar.Prelude.Io.{Error, unexpected_eof, err_closed}
use mmar.Prelude.Maps.{Map, lookup, insert, delete}
use mmar.Prelude.{
  ℕ, Bool, true, false, Bytes, codes, List, [], ◌∷◌, ◌++◌, Option, none, some, bytes_eq, nat_eq,
  ◌==◌, length, ltb, drop, take, if◌then◌else◌,
}
use mmar.Protocol.Errors.{respond_tunnel_err}
use mmar.Protocol.Types
use mmar.Protocol.{TunnelMessage}
use mmar.Server.Cancel.{handle_cancel, cancel}
use mmar.Server.Registry.{send_on, close_client_tunnel}
use mmar.Server.RequestId.{put_uint32, uint32, generate_unique_request_id}
use mmar.Server.Serialize.{Request, Serialized, sent, given_up, still_reading, serialize_request}
use mmar.Server.State.{
  Cause, client_disconnected_err, read_resp_body_err, failed_to_forward_to_mmar_client_err,
  failed_to_read_resp_from_mmar_client_err, Progress, waiting, answered, cancelled, Exchange,
  OutgoingResponse, Shared, ClientTunnel, MmarServer, update, Running, running, crashed,
}
use mmar.Utils.{extract_subdomain}

-- What the statistics page shows of a client.
stats_of : Map Bytes ClientTunnel → List (Bytes × ℕ)
stats_of [] = []
stats_of ((name, ct) ∷ rest) = (ct.id, ct.created_on) ∷ stats_of rest

unauthorized : ResponseWriter → ResponseWriter
unauthorized w =
    write_header 401 (add_header (codes "WWW-Authenticate") (codes "Basic realm=\"stats\"") w)

stats_written : Option Bytes → ResponseWriter → ResponseWriter
stats_written none w = write_header 500 w
stats_written (some marshalled) w = write marshalled (write_header status_ok w)

module _ (valid_credentials : Bytes → Bytes → Bool)
    (marshal : ℕ → List (Bytes × ℕ) → Option Bytes) where
  -- `r.BasicAuth()` is the first argument.
  unfoldable pub handle_server_stats :
      Option (Bytes × Bytes) → MmarServer → ResponseWriter → ResponseWriter
  unfolding stats_of unauthorized stats_written
  handle_server_stats none s w = unauthorized w
  handle_server_stats (some (username, password)) s w =
      if valid_credentials username password
      then stats_written (marshal (length s.clients) (stats_of s.clients)) w
      else unauthorized w

-- Where a handler stands when it first waits for its tunnel.
pub data Begun : Type 0 where
  -- the statistics page was asked for
  stats : Begun
  -- the user has an answer
  done : ResponseWriter → Begun
  -- the request is on its way, under this id
  tunneled : ClientTunnel → ℕ → Begun
  -- the body gives no more
  reading : Begun
  -- the loop that draws an id does not end
  undrawn : Begun

store_inflight : ClientTunnel → ℕ → ℕ → MmarServer → MmarServer
store_inflight ct req_id k s = record s {
  shareds =
      update s.shareds ct.shared (record (s.shareds ct.shared) {
        inflight = insert req_id k (s.shareds ct.shared).inflight;
      });
}

delete_inflight : ClientTunnel → ℕ → MmarServer → MmarServer
delete_inflight ct req_id s = record s {
  shareds =
      update s.shareds ct.shared
        (record (s.shareds ct.shared) { inflight = delete req_id (s.shareds ct.shared).inflight });
}

-- The exchange of a request that enters its tunnel.
open_exchange : ℕ → ResponseWriter → MmarServer → MmarServer
open_exchange k w s = record s {
  exchanges = update s.exchanges k (record { writer = w; progress = waiting });
}

forwarded : ℕ → Option Error × MmarServer → MmarServer
forwarded k (none, s) = s
forwarded k (some e, s) = cancel k failed_to_forward_to_mmar_client_err s

-- The `Request` message, with the id in front.
abbrev pub request_message : ℕ → Bytes → TunnelMessage
request_message req_id serialized = record {
  msg_type = Types.request;
  msg_data = put_uint32 req_id ++ serialized;
}

pub tunnel_request :
    ClientTunnel → ℕ → ResponseWriter → Bytes → MmarServer → Option ℕ → Begun × MmarServer
unfolding store_inflight open_exchange forwarded
tunnel_request ct k w serialized s none = (undrawn, s)
tunnel_request ct k w serialized s (some req_id) = (
  tunneled ct req_id,
  forwarded k (
      send_on ct.conn (request_message req_id serialized)
        (store_inflight ct req_id k (open_exchange k w s))),
)

module _ (write_headers : Map Bytes (List Bytes) → Bytes) (draws : ℕ → ℕ) (fuel : ℕ) where
  unfoldable pub with_request :
      ClientTunnel → ℕ → ResponseWriter → MmarServer → Serialized → Begun × MmarServer
  unfolding tunnel_request
  with_request ct k w s (given_up why) = (done (handle_cancel why w), s)
  with_request ct k w s still_reading = (reading, s)
  with_request ct k w s (sent serialized) =
      tunnel_request ct k w serialized s
        (generate_unique_request_id (s.shareds ct.shared).inflight draws fuel)

  with_client : Option ClientTunnel → ℕ → Request → ResponseWriter → MmarServer → Begun × MmarServer
  unfolding with_request
  with_client none k r w s = (done (respond_tunnel_err Types.client_disconnect w), s)
  with_client (some ct) k r w s = with_request ct k w s (serialize_request write_headers r)

  -- `ServeHTTP` up to its second `select`, for the request whose exchange has the key `k`.
  unfoldable pub begin : ℕ → Request → ResponseWriter → MmarServer → Begun × MmarServer
  unfolding with_client
  begin k r w s =
      let subdomain = extract_subdomain r.host in
      if subdomain == codes "stats"
      then (stats, s)
      else with_client (lookup subdomain s.clients) k r w s

respond : OutgoingResponse → ResponseWriter → ResponseWriter
respond resp w =
    write resp.body
      (write_header resp.status_code (set_header (codes "Connection") (codes "close") w))

finish_by :
    Progress → ResponseWriter → ClientTunnel → ℕ → MmarServer → Option ResponseWriter × MmarServer
unfolding respond delete_inflight
finish_by waiting w ct req_id s = (none, s)
finish_by (cancelled why) w ct req_id s = (some (handle_cancel why w), delete_inflight ct req_id s)
finish_by (answered resp) w ct req_id s = (some (respond resp w), s)

-- `ServeHTTP` from its second `select` on: nothing while neither a cause nor an answer is there.
unfoldable pub finish : ClientTunnel → ℕ → ℕ → MmarServer → Option ResponseWriter × MmarServer
unfolding finish_by
finish ct req_id k s = finish_by (s.exchanges k).progress (s.exchanges k).writer ct req_id s

-- What `http.ReadResponse` and `io.ReadAll` give: an error, or the status, the headers, each with
-- its first value and the others, and the body unless reading it fails.
pub data ParsedResponse : Type 0 where
  parsed : ℕ → List (Bytes × Bytes × List Bytes) → Option Bytes → ParsedResponse
  parse_failed : Error → ParsedResponse

add_headers : Bytes → List Bytes → ResponseWriter → ResponseWriter
add_headers k [] w = w
add_headers k (v ∷ vs) w = add_headers k vs (add_header k v w)

unfoldable pub copy_headers : List (Bytes × Bytes × List Bytes) → ResponseWriter → ResponseWriter
unfolding add_headers
copy_headers [] w = w
copy_headers ((k, v, vs) ∷ rest) w = copy_headers rest (add_headers k vs (set_header k v w))

answer : OutgoingResponse → Progress → Progress
answer resp waiting = answered resp
answer resp (answered first) = answered first
answer resp (cancelled why) = cancelled why

-- The headers are set on the writer, also when the request has been given up by then.
deliver : ℕ → ℕ → List (Bytes × Bytes × List Bytes) → Bytes → MmarServer → MmarServer
unfolding answer
deliver k status headers body s = record s {
  exchanges = update s.exchanges k (record {
    writer = copy_headers headers (s.exchanges k).writer;
    progress = answer (record { status_code = status; body = body }) (s.exchanges k).progress;
  });
}

disconnected : Error → Bool
disconnected unexpected_eof = true
disconnected err_closed = true
disconnected e = false

-- The response is the message's data behind the id.
by_response : ClientTunnel → ℕ → MmarServer → ParsedResponse → Running MmarServer
unfolding disconnected deliver
by_response ct k s (parse_failed e) =
    if disconnected e
    then close_client_tunnel ct (cancel k client_disconnected_err s)
    else running (cancel k failed_to_read_resp_from_mmar_client_err s)
by_response ct k s (parsed status headers none) = running (cancel k read_resp_body_err s)
by_response ct k s (parsed status headers (some body)) = running (deliver k status headers body s)

module _ (read_response : ℕ → Bytes → ParsedResponse) where
  pub by_inflight : ClientTunnel → ℕ → Bytes → MmarServer → Option ℕ → Running MmarServer
  unfolding by_response delete_inflight
  by_inflight ct req_id response s none = running s
  by_inflight ct req_id response s (some k) =
      by_response ct k (delete_inflight ct req_id s) (read_response k response)

  -- `handleResponseMessages`. Before a tunnel is made its pointer is nil, and is read through.
  unfoldable pub handle_response_messages :
      Option ClientTunnel → TunnelMessage → MmarServer → Running MmarServer
  unfolding by_inflight
  handle_response_messages none msg s = crashed
  handle_response_messages (some ct) msg s =
      if ltb (length msg.msg_data) request_id_buff_size
      then running s
      else let req_id = uint32 (take request_id_buff_size msg.msg_data) in
        by_inflight ct req_id (drop request_id_buff_size msg.msg_data) s
          (lookup req_id (s.shareds ct.shared).inflight)
