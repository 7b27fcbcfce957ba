-- ===== src/Logger.antt =====
-- internal/logger/main.go: the wrapped response writer, and the lines that are logged. A line is the
-- text given to the `log` package, without the time stamp that the package puts in front.
pub mod Middleware
pub mod Colors
use mmar.Constants
use mmar.Constants.{red, green, yellow, blue, reset}
use mmar.Http.{ResponseWriter, status_ok, set_header, add_header, write_header, write}
use mmar.Prelude.Decimal.{ℤ, pos, negsuc, itoa}
use mmar.Prelude.{
  ℕ, suc, ◌/◌, Bool, true, false, ◌||◌, Bytes, codes, List, [], ◌∷◌, ◌++◌, eqn, length, bytes_eq,
  ◌==◌, if◌then◌else◌,
}
use mmar.Utils.{extract_subdomain}

-- Captures the status and the length of what goes to the writer that it embeds.
pub record WrappedResponseWriter : Type 0 where
  pub inner : ResponseWriter
  pub status_code : ℕ
  pub content_length : ℕ

unfoldable pub write_header_wrapped : ℕ → WrappedResponseWriter → WrappedResponseWriter
write_header_wrapped status_code wrw = record wrw {
  status_code = status_code;
  inner = write_header status_code wrw.inner;
}

unfoldable pub write_wrapped : Bytes → WrappedResponseWriter → WrappedResponseWriter
write_wrapped bytes wrw = record wrw {
  content_length = length bytes;
  inner = write bytes wrw.inner;
}

-- A call that a handler makes on the writer it is given.
pub data WriterCall : Type 0 where
  sets : Bytes → Bytes → WriterCall
  adds : Bytes → Bytes → WriterCall
  writes_header : ℕ → WriterCall
  writes : Bytes → WriterCall

unfoldable pub call : WriterCall → ResponseWriter → ResponseWriter
call (sets k v) w = set_header k v w
call (adds k v) w = add_header k v w
call (writes_header status_code) w = write_header status_code w
call (writes bytes) w = write bytes w

-- `Header` is the embedded writer's.
unfoldable pub call_wrapped : WriterCall → WrappedResponseWriter → WrappedResponseWriter
call_wrapped (sets k v) wrw = record wrw { inner = set_header k v wrw.inner }
call_wrapped (adds k v) wrw = record wrw { inner = add_header k v wrw.inner }
call_wrapped (writes_header status_code) wrw = write_header_wrapped status_code wrw
call_wrapped (writes bytes) wrw = write_wrapped bytes wrw

unfoldable pub calls : List WriterCall → ResponseWriter → ResponseWriter
calls [] w = w
calls (c ∷ cs) w = calls cs (call c w)

unfoldable pub calls_wrapped : List WriterCall → WrappedResponseWriter → WrappedResponseWriter
calls_wrapped [] wrw = wrw
calls_wrapped (c ∷ cs) wrw = calls_wrapped cs (call_wrapped c wrw)

unfoldable pub color_log_str : Bytes → Bytes → Bytes
color_log_str color logstr = color ++ logstr ++ reset

-- `Log`: the default colour is the empty text.
unfoldable pub log_str : Bytes → Bytes → Bytes
log_str [] logstr = logstr
log_str (c ∷ color) logstr = color_log_str (c ∷ color) logstr

-- `html.EscapeString`.
escaped : ℕ → Bytes
escaped c =
    if eqn c b'&'
    then codes "&amp;"
    else if eqn c b'\''
    then codes "&#39;"
    else if eqn c b'<'
    then codes "&lt;"
    else if eqn c b'>'
    then codes "&gt;"
    else if eqn c b'"'
    then codes "&#34;"
    else c ∷ []

unfoldable pub escape_string : Bytes → Bytes
unfolding escaped
escape_string [] = []
escape_string (c ∷ s) = escaped c ++ escape_string s

-- What `LogHTTP` reads of a request.
pub record LoggedRequest : Type 0 where
  pub method : Bytes
  pub host : Bytes
  pub path : Bytes
  pub raw_query : Bytes
  pub proto : Bytes

int_text : ℤ → Bytes
int_text (pos n) = itoa n
int_text (negsuc n) = b'-' ∷ itoa (suc n)

colored_status : ℕ → Bytes
colored_status status_code =
    if eqn (status_code / 100) 2
    then color_log_str green (itoa status_code)
    else if eqn (status_code / 100) 3
    then color_log_str yellow (itoa status_code)
    else if eqn (status_code / 100) 4
    then color_log_str red (itoa status_code)
    else if eqn (status_code / 100) 5
    then color_log_str red (itoa status_code)
    else itoa status_code

colored_method : Bytes → Bytes
colored_method method =
    if method == codes "GET"
    then color_log_str yellow method
    else if method == codes "POST" || method == codes "PATCH" || method == codes "PUT"
    then color_log_str blue method
    else if method == codes "DELETE"
    then color_log_str red method
    else method

query_mark : Bytes → Bytes
query_mark [] = []
query_mark (c ∷ query) = codes "?"

subdomain_info : Bool → Bytes → Bytes
subdomain_info false host = []
subdomain_info true host = b'[' ∷ extract_subdomain host ++ codes "] "

-- The line with its method and status as they are given.
http_line : LoggedRequest → ℤ → Bool → Bytes → Bytes → Bytes
unfolding query_mark subdomain_info int_text
http_line req content_length include_subdomain method status =
    subdomain_info include_subdomain req.host
    ++ b'"' ∷ method
    ++ b' ' ∷ escape_string req.path
    ++ query_mark req.raw_query
    ++ req.raw_query
    ++ b' ' ∷ req.proto
    ++ b'"' ∷ b' ' ∷ status
    ++ b' ' ∷ int_text content_length

unfoldable pub log_http : LoggedRequest → ℕ → ℤ → Bool → Bool → Bytes
unfolding http_line colored_method colored_status
log_http req status_code content_length include_subdomain false =
    http_line req content_length include_subdomain req.method (itoa status_code)
log_http req status_code content_length include_subdomain true =
    http_line req content_length include_subdomain (colored_method req.method)
      (colored_status status_code)

abbrev pub wrapped : ResponseWriter → WrappedResponseWriter
wrapped w = record { inner = w; status_code = status_ok; content_length = 0 }

-- The handler, by its calls for a request; the writer after it, and the line that is logged.
unfoldable pub logger_middleware :
    (LoggedRequest → List WriterCall) → ResponseWriter → LoggedRequest → ResponseWriter × Bytes
logger_middleware h w r =
    let wrw = calls_wrapped (h r) (wrapped w) in
    (wrw.inner, log_http r wrw.status_code (pos wrw.content_length) true false)

unfoldable pub log_start_mmar_server : Bytes → Bytes → Bytes
log_start_mmar_server tcp_port http_port =
    codes "Starting mmar server...\n  Starting HTTP Server on port: "
    ++ http_port
    ++ codes "\n  Starting TCP Sever on port: "
    ++ tcp_port
    ++ codes "\n\n"

port_info : Bytes → Bytes → Bytes → Bytes
port_info usual label port = if port == usual then [] else label ++ color_log_str blue port

unfoldable pub log_start_mmar_client : Bytes → Bytes → Bytes → Bytes → Bytes
unfolding port_info
log_start_mmar_client tunnel_host tunnel_tcp_port tunnel_http_port local_port =
    codes "Starting "
    ++ color_log_str blue (codes "mmar client")
    ++ codes "...\n  Creating tunnel:\n    Tunnel Host: "
    ++ color_log_str blue tunnel_host
    ++ port_info Constants.server_tcp_port (codes "\n    Tunnel TCP Port: ") tunnel_tcp_port
    ++ port_info Constants.tunnel_http_port (codes "\n    Tunnel HTTP Port: ") tunnel_http_port
    ++ codes "\n    Local Port: "
    ++ color_log_str blue local_port
    ++ codes "\n\n"

-- The protocol and the port of a tunnel's address, as they are shown.
unfoldable pub shown_address : Bytes → Bytes → Bytes × Bytes
shown_address tunnel_host port =
    if tunnel_host == codes "localhost"
    then (
      codes "http",
      shown_port (if port == Constants.tunnel_http_port then Constants.server_http_port else port),
    )
    else (codes "https", shown_port port)
  where
    shown_port : Bytes → Bytes
    shown_port port = if port == Constants.tunnel_http_port then [] else b':' ∷ port

-- The line, by what is shown of the address.
unfoldable pub created_line : Bytes → Bytes → Bytes → Bytes × Bytes → Bytes
created_line subdomain tunnel_host local_port (http_protocol, port) =
    color_log_str green (codes "Tunnel created successfully!")
    ++ codes "\n\nA mmar tunnel is now open on:\n\n>>>  "
    ++ http_protocol
    ++ codes "://"
    ++ subdomain
    ++ b'.' ∷ tunnel_host
    ++ port
    ++ b' ' ∷ color_log_str green (codes "->")
    ++ codes " http://localhost:"
    ++ local_port
    ++ codes "\n\n"

-- What `fmt.Println` prints, and the line.
unfoldable pub log_tunnel_created : Bytes → Bytes → Bytes → Bytes → Bytes × Bytes
unfolding shown_address created_line
log_tunnel_created subdomain tunnel_host tunnel_http_port local_port = (
  subdomain ++ b' ' ∷ tunnel_host ++ b' ' ∷ tunnel_http_port ++ b' ' ∷ local_port ++ codes "\n",
  created_line subdomain tunnel_host local_port (shown_address tunnel_host tunnel_http_port),
)
