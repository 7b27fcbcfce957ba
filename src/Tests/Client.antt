-- ===== src/Tests/Client.antt =====
-- internal/client/main.go at a concrete client, alone and with the small server.
use mmar.Prelude.Maps.{lookup}
use mmar.Prelude.Text.{to_lower, join, split}
use mmar.Utils.{extract_subdomain}
use mmar.Client.Forwarding.{process-forwards, process-refused}
use mmar.Client.Tunnels.{parse_tunnel_data-client, reconnect_tunnel-reclaims}
use mmar.Client.{
  MmarClient, Attempt, goes_on, exits, Certificate, loaded, ParsedRequest, request_uri, Forwarded,
  response, reclaim_data, create_tunnel_data, reconnect_tunnel, process_tunnel_message,
}
use mmar.EndToEnd.{IsAnswered, request-IsAnswered}
use mmar.Server.Requests.Headers.{HasHeaders}
use mmar.Http.{ResponseWriter, ServerResponse, fresh_writer, set_header, write_header, write}
use mmar.Prelude.Io.{eof, ok}
use mmar.Prelude.{
  ℕ, ◌≡◌, refl, arith, Bytes, codes, [], ◌∷◌, ◌++◌, none, some, true, false, Bool, inl,
}
use mmar.Protocol.Framing.{wire}
use mmar.Protocol.Types
use mmar.Protocol.{TunnelMessage}
use mmar.Client.Forwarding.{IsReply}
use mmar.Server.Loop.{parse_tunnel_data}
use mmar.Server.Registry.{authenticate, auth_not_configured}
use mmar.Server.Requests.{request_message, ParsedResponse, parsed}
use mmar.Tests.Requests.{plain_text, no_headers, nines, get, get-sent, get-client, serialized}
use mmar.Tests.Samples.{client_abc, conn, serving, zeros}

abbrev pub client : MmarClient
client = record {
  config = record {
    local_port = codes "8000";
    tunnel_http_port = codes "443";
    tunnel_tcp_port = codes "6673";
    tunnel_host = codes "mmar.dev";
    custom_dns = [];
    custom_cert = [];
    custom_name = codes "abc";
    api_key = codes "k";
  };
  conn = conn;
  subdomain = codes "abc";
}

parse_tunnel_data-client_test :
    (parse_tunnel_data (create_tunnel_data client.config) ≡ (codes "abc", codes "k"))
    × (parse_tunnel_data (reclaim_data client) ≡ (codes "abc", codes "k"))
parse_tunnel_data-client_test =
    parse_tunnel_data-client client (ground arith) (ground arith) (ground arith)

abbrev unreachable : Attempt
unreachable = record { cancelled = false; dialed = none }

reconnect_tunnel-reclaims_example :
    (asked : Bytes) × (parse_tunnel_data asked ≡ (codes "abc", codes "k"))
    × (reconnect_tunnel (unreachable ∷ record { cancelled = false; dialed = some conn } ∷ []) client
        ≡ some (
            goes_on (record client {
              conn = record conn {
                written = [] ++ wire (record { msg_type = Types.reclaim_tunnel; msg_data = asked });
              };
            })))
reconnect_tunnel-reclaims_example =
    reconnect_tunnel-reclaims (unreachable ∷ []) [] conn client ((refl, refl), tt)
      (refl, refl, refl) (ground arith) (ground arith)

-- Stand-ins for the certificate file, for `net/http`, for `url.Parse` and for a local server.
abbrev pub certificate : Bytes → Certificate
certificate file = loaded

abbrev pub read_request : Bytes → ParsedRequest
read_request s = request_uri (codes "/")

abbrev pub url_parses : Bytes → Bool
url_parses url = true

abbrev pub forward : Bytes → Bytes → Forwarded
forward url request = response (codes "hello")

abbrev pub read_response : ℕ → Bytes → ParsedResponse
read_response k s = parsed 200 plain_text (some s)

abbrev pub write_response : ServerResponse → Bytes
write_response r = r.body

process-forwards_example :
    (reply : TunnelMessage) × IsReply 9 (response (codes "hello")) reply
    × (process_tunnel_message certificate read_request url_parses forward false [] client
          (ok (request_message 9 serialized))
        ≡ some (goes_on (record client { conn = record conn { written = [] ++ wire reply } })))
process-forwards_example =
    process-forwards certificate read_request url_parses forward [] client 9 serialized (codes "/")
      refl (refl, refl, refl) refl refl

abbrev certified : MmarClient
certified = record client { config = record client.config { custom_cert = codes "cert" } }

not_configured :
    authenticate none (codes "k") ≡ some (Types.auth_token_invalid, auth_not_configured)
unfolding authenticate
not_configured = refl

process-refused_example :
    process_tunnel_message certificate read_request url_parses forward false [] client
      (ok (record { msg_type = Types.auth_token_invalid; msg_data = [] }))
    ≡ some (exits 0)
process-refused_example =
    process-refused certificate read_request url_parses forward none (codes "k") [] [] zeros []
      client Types.auth_token_invalid auth_not_configured (inl not_configured)

request-IsAnswered_example :
    (copied : ResponseWriter) × HasHeaders plain_text fresh_writer copied
    × IsAnswered no_headers nines 3 certificate read_request url_parses forward zeros read_response
        write_response 8 get fresh_writer serving client_abc client_abc.tunnel client eof
        (write
          (codes "hello")
          (write_header 200 (set_header (codes "Connection") (codes "close") copied)))
unfolding extract_subdomain to_lower join split lookup
request-IsAnswered_example =
    request-IsAnswered no_headers nines 3 certificate read_request url_parses forward zeros
      read_response write_response 8 get fresh_writer serving client_abc client_abc.tunnel
      serialized client (codes "/") (codes "hello") 200 plain_text (codes "hello") eof refl
      get-client get-sent refl (λ e. absurd (omega (arith, e))) (omega arith) (omega arith)
      (refl, refl, refl) refl (refl, refl, refl) refl refl refl refl (omega arith) (omega arith)
