-- ===== src/Server/Requests/Delivery.antt =====
-- internal/server/main.go: a request finds its way to the tunnel,
-- and its response back to the request.
use mathlib.Core.Path.{subst}
use mmar.Http.{set_header, write_header, write, ResponseWriter}
use mmar.Prelude.Maps.{Map, lookup, lookup-delete, lookup-insert_self}
use mmar.Prelude.{
  ℕ, ◌^◌, ◌<◌, ◌≡◌, ◌≢◌, refl, sym, false, Bytes, codes, List, ◌++◌, none, some, bytes_eq, nat_eq,
  ◌==◌, length, ltb, drop, take, arith, ◌⊎◌, inl, inr,
}
use mmar.Protocol.Conn.{IsOpen, send_open}
use mmar.Protocol.Framing.{wire}
use mmar.Protocol.Types
use mmar.Protocol.{TunnelMessage}
use mmar.Server.Registry.{send_on}
use mmar.Server.RequestId.{put_uint32, generate_unique_request_id_first, uint32-put_uint32}
use mmar.Server.Requests.{
  finish, finish_by, respond, begin, tunneled, tunnel_request, request_message, ParsedResponse,
  parsed, copy_headers, handle_response_messages, by_inflight, by_response, delete_inflight,
  deliver, with_request, with_client,
}
use mmar.Server.Requests.Headers.{HasHeaders, copy_headers-HasHeaders}
use mmar.Server.Serialize.{Request, sent, serialize_request}
use mmar.Server.State.{waiting, answered, OutgoingResponse, ClientTunnel, MmarServer, running}
use mmar.Utils.{extract_subdomain}

inflight_of : MmarServer → ClientTunnel → Map ℕ ℕ
inflight_of s ct = (s.shareds ct.shared).inflight

-- A request is under way: its id is in flight and its handler waits.
pub record IsUnderWay (ct : ClientTunnel) (req_id k : ℕ) (w : ResponseWriter) (s : MmarServer)
    : Type 0 where
  pub in_flight : lookup req_id (s.shareds ct.shared).inflight ≡ some k
  pub handler : s.exchanges k ≡ record { writer = w; progress = waiting }

pub tunnel_request-IsUnderWay :
    (ct : ClientTunnel) (k req_id : ℕ) (w : ResponseWriter) (serialized : Bytes) (s : MmarServer)
    → IsOpen (s.conns ct.conn)
    → let r = tunnel_request ct k w serialized s (some req_id) in
      (r.0 ≡ tunneled ct req_id)
      × IsUnderWay ct req_id k w r.1
      × ((r.1.conns ct.conn).written
          ≡ (s.conns ct.conn).written ++ wire (request_message req_id serialized))
unfolding tunnel_request send_on
tunnel_request-IsUnderWay ct k req_id w serialized s o =
    let e = send_open (request_message req_id serialized) (s.conns ct.conn) o (omega arith) in
    (
      refl,
      record {
        in_flight =
            rw e (ground (arith, lookup-insert_self req_id k (s.shareds ct.shared).inflight));
        handler = rw e (ground arith);
      },
      rw e (ground arith),
    )

module _ (write_headers : Map Bytes (List Bytes) → Bytes) (draws : ℕ → ℕ) (fuel : ℕ) where
  -- A request for a client's subdomain whose body can be sent, over an open connection, when the id 0
  -- is not in flight for the client and the first draw is not 0: its id is the first draw, the client
  -- is sent the id and the request behind what it was sent before, and the handler waits for what
  -- comes back under that id.
  pub begin-IsUnderWay :
      (k : ℕ) (r : Request) (w : ResponseWriter) (s : MmarServer) (ct : ClientTunnel)
      (serialized : Bytes)
      → (extract_subdomain r.host == codes "stats") ≡ false
      → lookup (extract_subdomain r.host) s.clients ≡ some ct
      → serialize_request write_headers r ≡ sent serialized
      → lookup 0 (s.shareds ct.shared).inflight ≡ none
      → draws 0 ≢ 0
      → 1 < fuel
      → IsOpen (s.conns ct.conn)
      → let b = begin write_headers draws fuel k r w s in
        (b.0 ≡ tunneled ct (draws 0))
        × IsUnderWay ct (draws 0) k w b.1
        × ((b.1.conns ct.conn).written
            ≡ (s.conns ct.conn).written ++ wire (request_message (draws 0) serialized))
  begin-IsUnderWay k r w s ct serialized not_stats client out clear nonzero enough o =
      rw (begin-request k r w s ct serialized not_stats client out clear nonzero enough)
        (tunnel_request-IsUnderWay ct k (draws 0) w serialized s o)
    where
      begin-request :
          (k : ℕ) (r : Request) (w : ResponseWriter) (s : MmarServer) (ct : ClientTunnel)
          (serialized : Bytes)
          → (extract_subdomain r.host == codes "stats") ≡ false
          → lookup (extract_subdomain r.host) s.clients ≡ some ct
          → serialize_request write_headers r ≡ sent serialized
          → lookup 0 (s.shareds ct.shared).inflight ≡ none
          → draws 0 ≢ 0
          → 1 < fuel
          → begin write_headers draws fuel k r w s
            ≡ tunnel_request ct k w serialized s (some (draws 0))
      begin-request k r w s ct serialized not_stats client out clear nonzero enough =
          unfold begin with_client with_request in
          ground (
            arith,
            out,
            client,
            generate_unique_request_id_first (s.shareds ct.shared).inflight draws 0 fuel clear
                (omega arith) (λ j lt. absurd (omega arith)) nonzero,
          )

module _ (read_response : ℕ → Bytes → ParsedResponse) where
  -- A message with an id in front is looked up under that id.
  pub handle_response-by_inflight :
      (ct : ClientTunnel) (req_id t : ℕ) (response : Bytes) (s : MmarServer)
      → req_id < 2 ^ 32
      → handle_response_messages read_response
          (some ct)
          (record { msg_type = t; msg_data = put_uint32 req_id ++ response })
          s
        ≡ by_inflight read_response ct req_id response s
            (lookup req_id (s.shareds ct.shared).inflight)
  unfolding handle_response_messages
  handle_response-by_inflight ct req_id t response s small =
      ground (arith, prefix, behind, long_enough, uint32-put_uint32 req_id small)
    where
      prefix : take 4 (put_uint32 req_id ++ response) ≡ put_uint32 req_id
      prefix = unfold put_uint32 in refl

      behind : drop 4 (put_uint32 req_id ++ response) ≡ response
      behind = unfold put_uint32 in refl

      long_enough : ltb (length (put_uint32 req_id ++ response)) 4 ≡ false
      long_enough = unfold put_uint32 in ground arith

  -- A response to a request that is under way, if it and its body can be read, answers that request
  -- with its status and body, puts its headers, and nothing else, on the request's writer, and takes
  -- its id out of flight; the other requests stay as they are, and so do the other ids of every
  -- tunnel.
  pub handle_response-answers :
      (ct : ClientTunnel) (req_id k : ℕ) (w : ResponseWriter) (s : MmarServer) (response : Bytes)
      (status : ℕ) (headers : List (Bytes × Bytes × List Bytes)) (body : Bytes)
      → req_id < 2 ^ 32
      → IsUnderWay ct req_id k w s
      → read_response k response ≡ parsed status headers (some body)
      → (s' : MmarServer) × (handle_response_messages read_response
            (some ct)
            (record { msg_type = Types.response; msg_data = put_uint32 req_id ++ response })
            s
          ≡ running s')
        × ((copied : ResponseWriter) × HasHeaders headers w copied
            × (s'.exchanges k ≡ record {
              writer = copied;
              progress = answered (record { status_code = status; body = body });
            }))
        × (lookup req_id (s'.shareds ct.shared).inflight ≡ none)
        × ((j : ℕ) → j ≢ k → s'.exchanges j ≡ s.exchanges j)
        × ((other : ℕ)
            → other ≢ req_id
            → lookup other (s'.shareds ct.shared).inflight
              ≡ lookup other (s.shareds ct.shared).inflight)
        × ((tunnel : ℕ) → tunnel ≢ ct.shared → s'.shareds tunnel ≡ s.shareds tunnel)
  handle_response-answers ct req_id k w s response status headers body small u p = (
    deliver k status headers body (delete_inflight ct req_id s),
    rw (handle_response-by_inflight ct req_id Types.response response s small, u.in_flight)
        (unfold by_inflight by_response in rw p),
    (
      copy_headers headers w,
      copy_headers-HasHeaders headers w,
      unfold deliver delete_inflight in ground (arith, u.handler),
    ),
    unfold deliver delete_inflight in
        ground (arith, lookup-delete req_id req_id (s.shareds ct.shared).inflight),
    λ j differs. unfold deliver delete_inflight in ground (arith, differs),
    λ other differs.
        unfold deliver delete_inflight in
        ground (arith, differs, lookup-delete req_id other (s.shareds ct.shared).inflight),
    λ tunnel differs. unfold deliver delete_inflight in ground (arith, differs),
  )

  -- A message that is too short for an id, or whose id is not in flight, changes nothing.
  pub handle_response-unknown :
      (ct : ClientTunnel) (msg : TunnelMessage) (s : MmarServer)
      → (length msg.msg_data < 4)
        ⊎ ((req_id : ℕ) × (response : Bytes) × (req_id < 2 ^ 32)
            × (msg.msg_data ≡ put_uint32 req_id ++ response)
            × (lookup req_id (s.shareds ct.shared).inflight ≡ none))
      → handle_response_messages read_response (some ct) msg s ≡ running s
  handle_response-unknown ct msg s (inl short) = unfold handle_response_messages in ground arith
  handle_response-unknown ct msg s (inr (req_id, response, small, e, gone)) =
      subst
        (λ bytes.
          handle_response_messages read_response (some ct)
            (record { msg_type = msg.msg_type; msg_data = bytes }) s
          ≡ running s)
        (sym e)
        (rw (handle_response-by_inflight ct req_id msg.msg_type response s small, gone)
          (unfold by_inflight in refl))

-- A handler that has its answer writes it, and says that the connection is closed.
pub finish-answered :
    (ct : ClientTunnel) (req_id k : ℕ) (w : ResponseWriter) (resp : OutgoingResponse)
    (s : MmarServer)
    → s.exchanges k ≡ record { writer = w; progress = answered resp }
    → finish ct req_id k s ≡ (
      some (
          write resp.body
            (write_header resp.status_code (set_header (codes "Connection") (codes "close") w))),
      s,
    )
unfolding finish finish_by respond
finish-answered ct req_id k w resp s h = rw h refl
