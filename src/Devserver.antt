-- ===== src/Devserver.antt =====
-- simulations/devserver/main.go: the web server that the simulations run behind a client. A handler is
-- the calls that it makes on its writer. The JSON encoder and decoder are parameters; how long a
-- handler sleeps, and the test server around the routes, are left out.
pub mod Replies
use mmar.Logger.{WriterCall, sets, writes_header, writes}
use mmar.Prelude.Decimal.{itoa}
use mmar.Prelude.Maps.{Map}
use mmar.Prelude.Text.{split}
use mmar.Prelude.{
  ◌≡◌, refl, ℕ, Bool, true, false, ◌||◌, Bytes, codes, List, [], ◌∷◌, ◌++◌, Option, none, some,
  length, bytes_eq, ◌==◌, if◌then◌else◌,
}

-- What `json.Marshal` is given: maps from texts, and what the request holds.
mutual
  pub data Json : Type 0 where
    boolean : Bool → Json
    string : Bytes → Json
    -- `http.Header` and `url.Values`
    value_lists : Map Bytes (List Bytes) → Json
    object : Fields → Json

  pub data Fields : Type 0 where
    no_fields : Fields
    field : Bytes → Json → Fields → Fields

-- A request, with the body as the decoder gives it, if it does.
pub record DevRequest : Type 0 where
  pub method : Bytes
  pub path : Bytes
  pub headers : Map Bytes (List Bytes)
  pub query : Map Bytes (List Bytes)
  pub decoded_body : Option Json

-- What becomes of a request: an answer, `log.Fatal`, a panic, or bytes on the hijacked connection,
-- which is closed.
pub data Handled : Type 0 where
  answers : List WriterCall → Handled
  fatal : Handled
  panics : Handled
  hijacked : Bytes → Handled

abbrev pub get_success_url : Bytes
get_success_url = codes "/get"

abbrev pub get_failure_url : Bytes
get_failure_url = codes "/get-fail"

abbrev pub post_success_url : Bytes
post_success_url = codes "/post"

abbrev pub post_failure_url : Bytes
post_failure_url = codes "/post-fail"

abbrev pub redirect_url : Bytes
redirect_url = codes "/redirect"

abbrev pub bad_response_url : Bytes
bad_response_url = codes "/bad-resp"

abbrev pub long_running_url : Bytes
long_running_url = codes "/long-running"

abbrev pub crash_url : Bytes
crash_url = codes "/crash"

-- The server that `NewDevServer` starts around the routes; the address that it is given is not used.
pub data DevServer : Type 0 where
  tls_server plain_server no_server : DevServer

unfoldable pub new_dev_server : Bytes → DevServer
new_dev_server proto =
    if proto == codes "https"
    then tls_server
    else if proto == codes "http"
    then plain_server
    else no_server

new_dev_server_test : new_dev_server (codes "http") ≡ plain_server
unfolding new_dev_server
new_dev_server_test = refl

-- The port behind the last colon of the server's URL.
last : List Bytes → Bytes
last [] = []
last (p ∷ []) = p
last (p ∷ q ∷ ps) = last (q ∷ ps)

unfoldable pub port : Bytes → Bytes
unfolding last
port url = last (split b':' url)

abbrev pub echo_headers : DevRequest → Fields → Json
echo_headers r more = object (field (codes "reqHeaders") (value_lists r.headers) more)

abbrev pub success_body : Json → Json → Json
success_body data_sent echo = object (
    field (codes "success") (boolean true)
      (field (codes "data") data_sent (field (codes "echo") echo no_fields)))

abbrev pub failure_body : Bytes → Json → Json
failure_body error echo = object (
    field (codes "success") (boolean false)
      (field (codes "error") (string error) (field (codes "echo") echo no_fields)))

abbrev pub json_headers : Bytes → List WriterCall
json_headers header =
    sets (codes "Content-Type") (codes "application/json")
    ∷ sets (codes "Simulation-Header") header
    ∷ []

-- The headers, the status, and the body, when it could be marshalled.
abbrev pub json_reply : List WriterCall → ℕ → Option Bytes → Handled
json_reply hs status_code none = fatal
json_reply hs status_code (some resp_body) =
    answers (hs ++ writes_header status_code ∷ writes resp_body ∷ [])

post_headers : Bytes → List WriterCall
post_headers resp_body =
    sets (codes "Content-Type") (codes "application/json")
    ∷ sets (codes "Content-Length") (itoa (length resp_body))
    ∷ sets (codes "Simulation-Header") (codes "devserver-handle-post-success")
    ∷ []

module _ (marshal : Json → Option Bytes) where
  handle_get : DevRequest → Handled
  handle_get r = json_reply (json_headers (codes "devserver-handle-get")) 200 (
      marshal (
        success_body (string (codes "some data"))
          (echo_headers r (field (codes "reqQueryParams") (value_lists r.query) no_fields))))

  handle_get_fail : DevRequest → Handled
  handle_get_fail r =
      json_reply (json_headers (codes "devserver-handle-get-fail")) 400
        (marshal (failure_body (codes "Sent bad GET request") (echo_headers r no_fields)))

  post_reply : Option Bytes → Handled
  unfolding post_headers
  post_reply none = fatal
  post_reply (some resp_body) = json_reply (post_headers resp_body) 200 (some resp_body)

  handle_post : DevRequest → Option Json → Handled
  unfolding post_reply
  handle_post r none = fatal
  handle_post r (some req_body) = post_reply (
      marshal (
        success_body (object (field (codes "posted") (string (codes "data")) no_fields))
          (echo_headers r (field (codes "reqBody") req_body no_fields))))

  handle_post_fail : DevRequest → Option Json → Handled
  handle_post_fail r none = fatal
  handle_post_fail r (some req_body) =
      json_reply (json_headers (codes "devserver-handle-post-fail")) 400 (
        marshal (
          failure_body (codes "Sent bad POST request")
            (echo_headers r (field (codes "reqBody") req_body no_fields))))

  -- `http.Redirect` to the page of `handleGet`, whose address needs no escapes.
  handle_redirect : DevRequest → Handled
  handle_redirect r = answers (
      sets (codes "Location") get_success_url
        ∷ (if r.method == codes "GET" || r.method == codes "HEAD"
            then sets (codes "Content-Type") (codes "text/html; charset=utf-8") ∷ []
            else [])
      ++ writes_header 302
        ∷ (if r.method == codes "GET"
            then writes (codes "<a href=\"/get\">Found</a>.\n\n") ∷ []
            else []))

  -- The response writer of an HTTP/1 connection can be hijacked.
  handle_bad_resp : Handled
  handle_bad_resp = hijacked (codes "some random string\r\n\r\nthat is not a valid http resp")

  handle_long_running_req : DevRequest → Handled
  handle_long_running_req r =
      json_reply (json_headers (codes "devserver-handle-long-running")) 200
        (marshal (success_body (string (codes "some data")) (echo_headers r no_fields)))

  handle_crashing_req : Handled
  handle_crashing_req = panics

  -- `setupMux`: the routes, each for one path. Any other path is the mux's own.
  unfoldable pub serve : DevRequest → Option Handled
  unfolding handle_get handle_get_fail handle_post handle_post_fail handle_redirect handle_bad_resp
      handle_long_running_req handle_crashing_req
  serve r =
      if r.path == get_success_url
      then some (handle_get r)
      else if r.path == get_failure_url
      then some (handle_get_fail r)
      else if r.path == post_success_url
      then some (handle_post r r.decoded_body)
      else if r.path == post_failure_url
      then some (handle_post_fail r r.decoded_body)
      else if r.path == redirect_url
      then some (handle_redirect r)
      else if r.path == bad_response_url
      then some handle_bad_resp
      else if r.path == long_running_url
      then some (handle_long_running_req r)
      else if r.path == crash_url
      then some handle_crashing_req
      else none
