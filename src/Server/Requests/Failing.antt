-- ===== src/Server/Requests/Failing.antt =====
-- internal/server/main.go: responses that break off, and ids that are drawn again.
use mmar.Http.{ResponseWriter}
use mmar.Prelude.Io.{unexpected_eof}
use mmar.Prelude.Maps.{lookup}
use mmar.Prelude.{
  ℕ, ◌^◌, ◌<◌, ◌≡◌, ◌≢◌, refl, sym, ◌∙◌, Bytes, List, ◌∷◌, ◌++◌, none, some, bytes_eq, nat_eq,
  arith,
}
use mmar.Protocol.Conn.{Tunnel, IsOpen, send_open}
use mmar.Protocol.Types
use mmar.Server.Cancel.{cancel}
use mmar.Server.Registry.{send_on, close_client_tunnel, close_client_tunnel_or_conn}
use mmar.Server.Registry.Closing.{close_client_tunnel_twice, close_client_tunnel_or_conn-named}
use mmar.Server.RequestId.{put_uint32}
use mmar.Server.Requests.{
  tunnel_request, request_message, ParsedResponse, parsed, parse_failed, handle_response_messages,
  by_inflight, by_response, delete_inflight,
}
use mmar.Server.State.{client_disconnected_err, waiting, ClientTunnel, MmarServer, running, crashed}
use mmar.Server.Requests.Delivery.{
  IsUnderWay, tunnel_request-IsUnderWay, handle_response-by_inflight, handle_response-answers,
}

module _ (read_response : ℕ → Bytes → ParsedResponse) where
  -- A response that breaks off in the middle closes its tunnel; when the loop that reads the
  -- tunnel's connection then finds it closed and closes the tunnel again, the server crashes.
  pub truncated_response_crashes :
      (ct : ClientTunnel) (t : Tunnel) (req_id k c : ℕ) (id : Bytes) (w : ResponseWriter)
      (s s' : MmarServer) (response : Bytes)
      → req_id < 2 ^ 32
      → ct.id ≡ c ∷ id
      → IsUnderWay ct req_id k w s
      → read_response k response ≡ parse_failed unexpected_eof
      → handle_response_messages read_response
          (some ct)
          (record { msg_type = Types.response; msg_data = put_uint32 req_id ++ response })
          s
        ≡ running s'
      → close_client_tunnel_or_conn (some ct) t s' ≡ crashed
  truncated_response_crashes ct t req_id k c id w s s' response small named u broken h =
      close-again (close_client_tunnel_twice ct gone s' s' (sym read ∙ h) refl)
    where
      gone : MmarServer
      gone = cancel k client_disconnected_err (delete_inflight ct req_id s)

      read :
          handle_response_messages read_response
            (some ct)
            (record { msg_type = Types.response; msg_data = put_uint32 req_id ++ response })
            s
          ≡ close_client_tunnel ct gone
      read =
          rw
            (
              handle_response-by_inflight read_response ct req_id Types.response response s small,
              u.in_flight,
            )
            (unfold by_inflight by_response in rw broken)

      close-again :
          close_client_tunnel ct s' ≡ crashed → close_client_tunnel_or_conn (some ct) t s' ≡ crashed
      close-again e = rw (close_client_tunnel_or_conn-named ct t s' named) e

-- When the server draws an id that is in flight already, the request that had it is forgotten: the
-- response that comes back under the id answers the new request, nothing is in flight under the
-- id afterwards, and the first request's handler still waits.
pub reused_id_forgets :
    (read_response : ℕ → Bytes → ParsedResponse) (ct : ClientTunnel) (req_id k k0 : ℕ)
    (w w0 : ResponseWriter) (serialized response : Bytes) (s : MmarServer) (status : ℕ)
    (headers : List (Bytes × Bytes × List Bytes)) (body : Bytes)
    → req_id < 2 ^ 32
    → k0 ≢ k
    → IsUnderWay ct req_id k0 w0 s
    → IsOpen (s.conns ct.conn)
    → read_response k response ≡ parsed status headers (some body)
    → (s' : MmarServer) × (handle_response_messages read_response
          (some ct)
          (record { msg_type = Types.response; msg_data = put_uint32 req_id ++ response })
          (tunnel_request ct k w serialized s (some req_id)).1
        ≡ running s')
      × (s'.exchanges k0 ≡ record { writer = w0; progress = waiting })
      × (lookup req_id (s'.shareds ct.shared).inflight ≡ none)
reused_id_forgets read_response ct req_id k k0 w w0 serialized response s status headers body small
      other u o p =
    let (_, under_way, _) = tunnel_request-IsUnderWay ct k req_id w serialized s o in
    let (s', e, _, gone, rest, _, _) =
      handle_response-answers read_response ct req_id k w _ response status headers body small
        under_way p in
    (s', e, rest k0 other ∙ kept ∙ u.handler, gone)
  where
    kept : (tunnel_request ct k w serialized s (some req_id)).1.exchanges k0 ≡ s.exchanges k0
    kept =
        unfold tunnel_request send_on in
        rw (send_open (request_message req_id serialized) (s.conns ct.conn) o (omega arith))
          (ground (arith, other))
