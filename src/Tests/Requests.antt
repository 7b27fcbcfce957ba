-- ===== src/Tests/Requests.antt =====
-- internal/server/main.go: requests and responses on a small server.
use mmar.Utils.Address.{extract_ip}
use mmar.Server.Cancel.{cancel}
use mmar.Prelude.Text.{to_lower, join, split}
use mmar.Utils.{extract_subdomain}
use mmar.Server.Requests.Headers.{HasHeaders}
use mmar.Http.{ResponseWriter, fresh_writer}
use mmar.Prelude.Io.{unexpected_eof, cut_at}
use mmar.Prelude.Maps.{Map, lookup}
use mmar.Prelude.{
  ℕ, ◌≡◌, ◌≢◌, refl, arith, Bytes, codes, List, [], ◌∷◌, ◌++◌, none, some, false, inl, bytes_eq,
  nat_eq, contains,
}
use mmar.Protocol.Framing.{wire}
use mmar.Protocol.Types
use mmar.Protocol.{TunnelMessage}
use mmar.Server.Registry.{close_client_tunnel_or_conn, close_client_tunnel}
use mmar.Server.RequestId.{put_uint32, uint32}
use mmar.Server.Requests.{
  ParsedResponse, parsed, parse_failed, begin, tunneled, tunnel_request, request_message,
  handle_response_messages,
}
use mmar.Server.Requests.Delivery.{
  IsUnderWay, begin-IsUnderWay, handle_response-answers, handle_response-unknown,
}
use mmar.Server.Requests.Failing.{truncated_response_crashes, reused_id_forgets}
use mmar.Server.Serialize.{at_eof, Request, serialize_request, sent, read_body, wire_request}
use mmar.Server.State.{MmarServer, running, crashed, waiting, answered}
use mmar.Tests.Samples.{client_abc, serving, server_after}

-- A stand-in for the writer of headers.
abbrev pub no_headers : Map Bytes (List Bytes) → Bytes
no_headers h = []

abbrev pub nines : ℕ → ℕ
nines i = 9

abbrev pub get : Request
get = record {
  method = codes "GET";
  request_uri = codes "/";
  proto = codes "HTTP/1.1";
  host = codes "abc.mmar.dev";
  headers = [];
  body = record { bytes = codes "x"; timed_out = false; after = at_eof } ∷ [];
}

abbrev pub serialized : Bytes
serialized = codes "GET / HTTP/1.1\nHost: abc.mmar.dev\n\nx\n"

pub get-sent : serialize_request no_headers get ≡ sent serialized
unfolding serialize_request read_body wire_request
get-sent = refl

pub get-client : lookup (codes "abc") serving.clients ≡ some client_abc
unfolding lookup
get-client = refl

begin-IsUnderWay_example :
    let b = begin no_headers nines 3 8 get fresh_writer serving in
    (b.0 ≡ tunneled client_abc 9)
    × IsUnderWay client_abc 9 8 fresh_writer b.1
    × ((b.1.conns 0).written ≡ [] ++ wire (request_message 9 serialized))
unfolding extract_subdomain to_lower join split lookup
begin-IsUnderWay_example =
    begin-IsUnderWay no_headers nines 3 8 get fresh_writer serving client_abc serialized refl
      get-client get-sent refl (λ e. absurd (omega (arith, e))) (omega arith) (refl, refl, refl)

-- The request 9 is under way, for the handler 8.
abbrev awaiting : MmarServer
awaiting = record serving {
  shareds = λ c. record { inflight = (9, 8) ∷ []; channels_closed = false };
}

awaiting-IsUnderWay : IsUnderWay client_abc 9 8 fresh_writer awaiting
unfolding lookup
awaiting-IsUnderWay = record { in_flight = refl; handler = refl }

-- Stand-ins for `net/http`.
abbrev pub whole : ℕ → Bytes → ParsedResponse
whole k s = parsed 200 [] (some s)

abbrev cut_short : ℕ → Bytes → ParsedResponse
cut_short k s = parse_failed unexpected_eof

abbrev hi_message : TunnelMessage
hi_message = record { msg_type = Types.response; msg_data = put_uint32 9 ++ codes "hi" }

abbrev pub plain_text : List (Bytes × Bytes × List Bytes)
plain_text =
    (codes "Content-Type", codes "text/plain", [])
    ∷ (codes "Vary", codes "Origin", codes "Accept" ∷ [])
    ∷ []

abbrev typed : ℕ → Bytes → ParsedResponse
typed k s = parsed 200 plain_text (some s)

handle_response-answers_example :
    (s : MmarServer) × (handle_response_messages typed (some client_abc) hi_message awaiting
      ≡ running s)
    × ((copied : ResponseWriter) × HasHeaders plain_text fresh_writer copied
        × (s.exchanges 8 ≡ record {
          writer = copied;
          progress = answered (record { status_code = 200; body = codes "hi" });
        }))
    × (lookup 9 (s.shareds 0).inflight ≡ none)
    × ((j : ℕ) → j ≢ 8 → s.exchanges j ≡ awaiting.exchanges j)
    × ((other : ℕ)
        → other ≢ 9
        → lookup other (s.shareds 0).inflight ≡ lookup other (awaiting.shareds 0).inflight)
    × ((tunnel : ℕ) → tunnel ≢ 0 → s.shareds tunnel ≡ awaiting.shareds tunnel)
handle_response-answers_example =
    handle_response-answers typed client_abc 9 8 fresh_writer awaiting (codes "hi") 200 plain_text
      (codes "hi") (omega arith) awaiting-IsUnderWay refl

abbrev short_message : TunnelMessage
short_message = record { msg_type = Types.response; msg_data = 1 ∷ [] }

handle_response-unknown_test :
    handle_response_messages whole (some client_abc) short_message awaiting ≡ running awaiting
handle_response-unknown_test =
    handle_response-unknown whole client_abc short_message awaiting (inl (omega arith))

abbrev after_cut : MmarServer
after_cut = server_after (handle_response_messages cut_short (some client_abc) hi_message awaiting)

cut-closes :
    handle_response_messages cut_short (some client_abc) hi_message awaiting ≡ running after_cut
unfolding handle_response_messages put_uint32 lookup uint32 close_client_tunnel contains cancel
    extract_ip cut_at
cut-closes = refl

truncated_response_crashes_example :
    close_client_tunnel_or_conn (some client_abc) client_abc.tunnel after_cut ≡ crashed
truncated_response_crashes_example =
    truncated_response_crashes cut_short client_abc client_abc.tunnel 9 8 b'a' (codes "bc")
      fresh_writer awaiting after_cut (codes "hi") (omega arith) refl awaiting-IsUnderWay refl
      cut-closes

reused_id_forgets_test :
    (s : MmarServer) × (handle_response_messages whole
        (some client_abc)
        hi_message
        (tunnel_request client_abc 4 fresh_writer serialized awaiting (some 9)).1
      ≡ running s)
    × (s.exchanges 8 ≡ record { writer = fresh_writer; progress = waiting })
    × (lookup 9 (s.shareds 0).inflight ≡ none)
reused_id_forgets_test =
    reused_id_forgets whole client_abc 9 4 8 fresh_writer fresh_writer serialized (codes "hi")
      awaiting 200 [] (codes "hi") (omega arith) (λ e. absurd (omega (arith, e)))
      awaiting-IsUnderWay (refl, refl, refl) refl
