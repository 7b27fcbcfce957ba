-- ===== src/EndToEnd.antt =====
-- internal/server/main.go and internal/client/main.go together: a request goes through the tunnel to
-- the client and its local server, and the response comes back.
pub mod Asking
pub mod Session
use mathlib.Core.Path.{subst}
use mmar.Client.Forwarding.{forwards_reply}
use mmar.Client.{
  MmarClient, goes_on, Certificate, ParsedRequest, request_uri, Forwarded, response, local_url,
  reply_message, process_tunnel_message,
}
use mmar.Http.{ServerResponse, ResponseWriter, set_header, write_header, write}
use mmar.Prelude.Io.{Error, ok}
use mmar.Prelude.Maps.{Map, lookup}
use mmar.Prelude.{
  ℕ, Bool, ◌+◌, ◌^◌, ◌≤◌, ◌<◌, ◌≡◌, ◌≢◌, refl, ap, false, true, Bytes, codes, List, [], ◌++◌, none,
  some, arith, bytes_eq, nat_eq, ◌==◌, length, append-nil,
}
use mmar.Protocol.Conn.{Tunnel, IsOpen, receive_message}
use mmar.Protocol.Framing.{wire, IsValidType, serialize-wire, deserialize-serialize}
use mmar.Protocol.Types
use mmar.Protocol.{TunnelMessage, max_alloc}
use mmar.Server.Loop.Safety.{process_message-response}
use mmar.Server.Loop.{again, process_message}
use mmar.Server.RequestId.{put_uint32}
use mmar.Server.Requests.Delivery.{begin-IsUnderWay, handle_response-answers, finish-answered}
use mmar.Server.Requests.{ParsedResponse, parsed, begin, tunneled, request_message, finish}
use mmar.Server.Requests.Headers.{HasHeaders}
use mmar.Server.Serialize.{Request, sent, serialize_request}
use mmar.Server.State.{ClientTunnel, MmarServer, running}
use mmar.Utils.{extract_subdomain}

-- A message is received as it was written.
receive-wire :
    (m : TunnelMessage) (e : Error)
    → IsValidType m.msg_type
    → length m.msg_data ≤ max_alloc
    → (receive_message (record { pending = wire m; fails_with = e })).0 ≡ ok m
unfolding receive_message
receive-wire m e v fits =
    subst (λ s. (receive_message (record { pending = s; fails_with = e })).0 ≡ ok m)
      (append-nil (wire m))
      (ap (λ p. p.0) (deserialize-serialize m (wire m) [] e (serialize-wire m v) fits))

length-put_uint32 : (n : ℕ) (s : Bytes) → length (put_uint32 n ++ s) ≡ 4 + length s
unfolding put_uint32
length-put_uint32 n s = omega arith

module _ (write_headers : Map Bytes (List Bytes) → Bytes) (draws : ℕ → ℕ) (fuel : ℕ)
    (certificate : Bytes → Certificate) (read_request : Bytes → ParsedRequest)
    (url_parses : Bytes → Bool) (forward : Bytes → Bytes → Forwarded) (names : ℕ → ℕ → ℕ)
    (read_response : ℕ → Bytes → ParsedResponse) (write_response : ServerResponse → Bytes) where
  -- What becomes of a request: the bytes that the server sends to the client, the client after it
  -- has received them, the bytes that it sends back, and the server after it has received those.
  pub record IsAnswered (k : ℕ) (r : Request) (w : ResponseWriter) (s : MmarServer)
      (ct : ClientTunnel) (t : Tunnel) (mc : MmarClient) (e : Error) (answer : ResponseWriter)
      : Type 0 where
    pub to_client : Bytes
    pub client : MmarClient
    pub to_server : Bytes
    pub server : MmarServer
    pub begins : (begin write_headers draws fuel k r w s).0 ≡ tunneled ct (draws 0)
    pub sends :
        ((begin write_headers draws fuel k r w s).1.conns ct.conn).written
        ≡ (s.conns ct.conn).written ++ to_client
    pub forwards :
        process_tunnel_message certificate read_request url_parses forward false [] mc
          (receive_message (record { pending = to_client; fails_with = e })).0
        ≡ some (goes_on client)
    pub replies : client.conn.written ≡ mc.conn.written ++ to_server
    pub returns :
        process_message names read_response write_response
          (some ct)
          t
          (receive_message (record { pending = to_server; fails_with = e })).0
          (begin write_headers draws fuel k r w s).1
        ≡ running (again (some ct), server)
    pub answers : finish ct (draws 0) k server ≡ (some answer, server)

  -- For a request for the subdomain of a client, over connections on which writes succeed, the handler
  -- puts on its writer the headers of the local server's response and the header that closes the
  -- connection, and then writes the response's status and body. The conditions: the request's body can be sent, its id is the first
  -- draw, of 32 bits and not 0, and 0 is not in flight; the client needs no certificate and can
  -- read the request and its URL; the server can read the response; both fit into memory.
  pub request-IsAnswered :
      (k : ℕ) (r : Request) (w : ResponseWriter) (s : MmarServer) (ct : ClientTunnel) (t : Tunnel)
      (serialized : Bytes) (mc : MmarClient) (uri written : Bytes) (status : ℕ)
      (headers : List (Bytes × Bytes × List Bytes)) (body : Bytes) (e : Error)
      → (extract_subdomain r.host == codes "stats") ≡ false
      → lookup (extract_subdomain r.host) s.clients ≡ some ct
      → serialize_request write_headers r ≡ sent serialized
      → lookup 0 (s.shareds ct.shared).inflight ≡ none
      → draws 0 ≢ 0
      → draws 0 < 2 ^ 32
      → 1 < fuel
      → IsOpen (s.conns ct.conn)
      → mc.custom_cert ≡ []
      → IsOpen mc.conn
      → read_request serialized ≡ request_uri uri
      → url_parses (codes "http://localhost:" ++ mc.config.local_port ++ uri) ≡ true
      → forward (codes "http://localhost:" ++ mc.config.local_port ++ uri) serialized
        ≡ response written
      → read_response k written ≡ parsed status headers (some body)
      → 4 + length serialized ≤ max_alloc
      → 4 + length written ≤ max_alloc
      → (copied : ResponseWriter) × HasHeaders headers w copied
        × IsAnswered k r w s ct t mc e (
            write body
              (write_header status (set_header (codes "Connection") (codes "close") copied)))
  unfolding reply_message local_url
  request-IsAnswered k r w s ct t serialized mc uri written status headers body e not_stats known
        sends clear drawn small enough opens plain client_open reads parses gives understood fits
        fits_back =
      let (begun, way, out) =
        begin-IsUnderWay write_headers draws fuel k r w s ct serialized not_stats known sends clear
          drawn enough opens in
      let b = (begin write_headers draws fuel k r w s).1 in
      let id = draws 0 in
      let (s', handled, (copied, has, exchange), _, _, _, _) =
        handle_response-answers read_response ct id k w b written status headers body small way
          understood in
      let reply : TunnelMessage = record {
        msg_type = Types.response;
        msg_data = put_uint32 id ++ written;
      } in
      (
        copied,
        has,
        record {
          to_client = wire (request_message id serialized);
          client = record mc { conn = record mc.conn { written = mc.conn.written ++ wire reply } };
          to_server = wire reply;
          server = s';
          begins = begun;
          sends = out;
          forwards =
              rw
                (receive-wire (request_message id serialized) e (omega arith)
                  (omega (arith, length-put_uint32 id serialized)))
                (rw
                  (
                    forwards_reply certificate read_request url_parses forward [] mc id serialized
                        uri plain client_open reads parses,
                    gives,
                  )
                  refl);
          replies = refl;
          returns =
              rw (receive-wire reply e (omega arith) (omega (arith, length-put_uint32 id written)))
                (process_message-response names read_response write_response (some ct) t
                  (put_uint32 id ++ written) b s' handled);
          answers =
              finish-answered ct id k copied (record { status_code = status; body = body }) s'
                exchange;
        },
      )
