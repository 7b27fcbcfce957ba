-- ===== src/Simulation.antt =====
-- simulations/simulation_utils.go: what the simulations use to drive the programs and to judge what comes
-- back. JSON and `net/http`'s reader of responses are parameters. A read of a connection is what
-- it gives; the list of them is what the network does.
pub mod Patterns
pub mod Urls
pub mod Logged
pub mod Judging
pub mod Reading
use mmar.Dns.{localhost_dns_server}
use mmar.Prelude.Io.{Error, eof}
use mmar.Prelude.Maps.{Map, lookup}
use mmar.Prelude.{
  ℕ, Bool, true, false, ◌&&◌, ◌||◌, Bytes, codes, List, [], ◌∷◌, ◌++◌, Option, none, some, ltb, leb,
  eqn, length, bytes_eq, ◌==◌, contains, if◌then◌else◌,
}
use mmar.Protocol.Conn.{Conn, write_conn}

-- The parts of a regular expression: one byte of a class, or one or more.
pub data Item : Type 0 where
  one : (ℕ → Bool) → Item
  many : (ℕ → Bool) → Item

abbrev pub with_byte : ℕ → Option Bytes → Option Bytes
with_byte c none = none
with_byte c (some m) = some (c ∷ m)

abbrev pub or_else : Option Bytes → Option Bytes → Option Bytes
or_else none other = other
or_else (some m) other = some m

-- The match at the start of a text; a repetition takes as much as it can and gives back what the
-- rest needs.
unfoldable pub match_here : List Item → Bytes → Option Bytes
match_here [] s = some []
match_here (i ∷ r) [] = none
match_here (one p ∷ r) (c ∷ s) = let rest = match_here r s in if p c then with_byte c rest else none
match_here (many p ∷ r) (c ∷ s) =
    let more = match_here (many p ∷ r) s in
    let rest = match_here r s in if p c then with_byte c (or_else more rest) else none

abbrev found_or : Option Bytes → Bytes → Bytes
found_or none other = other
found_or (some m) other = m

-- `FindString`: the leftmost match, or the empty text.
unfoldable pub find_string : List Item → Bytes → Bytes
find_string r [] = found_or (match_here r []) []
find_string r (c ∷ s) = let later = find_string r s in found_or (match_here r (c ∷ s)) later

-- `[a-zA-Z0-9\-]`
unfoldable pub host_char : ℕ → Bool
host_char c =
    (leb b'a' c && leb c b'z')
    || (leb b'A' c && leb c b'Z')
    || (leb b'0' c && leb c b'9')
    || eqn c b'-'

-- `\d`
abbrev pub digit : ℕ → Bool
digit c = leb b'0' c && leb c b'9'

abbrev pub literal : Bytes → List Item → List Item
literal [] r = r
literal (c ∷ s) r = one (eqn c) ∷ literal s r

abbrev pub tunnel_url_pattern : List Item
tunnel_url_pattern =
    literal (codes "http://") (many host_char ∷ literal (codes ".localhost:") (many digit ∷ []))

unfoldable pub extract_tunnel_url : Bytes → Bytes
unfolding find_string
extract_tunnel_url client_stdout = find_string tunnel_url_pattern client_stdout

-- Lines without a URL are passed over.
with_url : Bytes → List Bytes → List Bytes
with_url [] urls = urls
with_url (c ∷ url) urls = (c ∷ url) ∷ urls

-- simulations/simulation_test.go: the loop over the lines that the client logs.
unfoldable pub tunnel_urls : List Bytes → List Bytes
unfolding with_url
tunnel_urls [] = []
tunnel_urls (line ∷ lines) = with_url (extract_tunnel_url line) (tunnel_urls lines)

-- How the simulations reach a server: names are resolved by the test DNS server.
pub record Dialer : Type 0 where
  pub prefer_go : Bool
  pub resolver_network : Bytes
  pub resolver_address : Bytes

pub record HttpClient : Type 0 where
  pub dialer : Dialer
  pub disable_keep_alives : Bool

abbrev pub init_custom_dialer : Dialer
init_custom_dialer = record {
  prefer_go = true;
  resolver_network = codes "udp";
  resolver_address = localhost_dns_server;
}

abbrev pub http_client : HttpClient
http_client = record { dialer = init_custom_dialer; disable_keep_alives = true }

-- `log.Fatal` ends the simulation.
pub data Dialed : Type 0 where
  requested : Conn → Dialed
  fatal : Dialed

after_write : Option Error × Conn → Dialed
after_write (none, c) = requested c
after_write (some e, c) = fatal

-- The first argument is the connection that dialing gives, if it does.
unfoldable pub manual_http_request : (Dialer → Bytes → Option Conn) → Bytes → Bytes → Dialed
unfolding after_write
manual_http_request dial url raw_http_req = elim (dial init_custom_dialer url) [
  | none ↦ fatal
  | some c ↦ after_write (write_conn raw_http_req c)
]

abbrev pub buffer_size : ℕ
buffer_size = 2048

-- A read into the buffer: bytes, or an error with the bytes read before it.
pub data Received : Type 0 where
  read_bytes : Bytes → Received
  read_error : Bytes → Error → Received

-- The loop's result: the bytes, an error, or more reads than the list has.
pub data Collected : Type 0 where
  all_read : Bytes → Collected
  failed : Error → Collected
  waits : Collected

at_error : Bytes → Bytes → Error → Collected
at_error resp_bytes last eof = all_read (resp_bytes ++ last)
at_error resp_bytes last e = failed e

unfoldable pub read_loop : Bytes → List Received → Collected
unfolding at_error
read_loop resp_bytes [] = waits
read_loop resp_bytes (read_error last e ∷ reads) = at_error resp_bytes last e
read_loop resp_bytes (read_bytes s ∷ reads) =
    let more = read_loop (resp_bytes ++ s) reads in
    if ltb (length s) buffer_size then all_read (resp_bytes ++ s) else more

-- What `manualReadResponse` gives: a response, an error, or `log.Fatal`.
pub data ManualResponse (Response : Type 0) : Type 0 where
  response : Response → ManualResponse Response
  no_response : Error → ManualResponse Response
  fatal : ManualResponse Response
  waiting : ManualResponse Response

module _ {Response : Type 0} (read_response : Bytes → Option Response) where
  by_collected : Collected → ManualResponse Response
  by_collected waits = waiting
  by_collected (failed e) = no_response e
  by_collected (all_read s) = elim (read_response s) [
    | none ↦ ManualResponse.fatal
    | some r ↦ response r
  ]

  unfoldable pub manual_read_response : List Received → ManualResponse Response
  unfolding by_collected read_loop
  manual_read_response reads = by_collected (read_loop [] reads)

pub record Expected (Json : Type 0) : Type 0 where
  pub status_code : ℕ
  pub headers : Map Bytes Bytes
  pub json_body : Json
  pub text_body : Bytes

-- What comes back of a request.
pub record Fetched : Type 0 where
  pub status_code : ℕ
  pub header : Map Bytes (List Bytes)
  pub body : Bytes

-- What the JSON decoder gives: a value, or what stands in its buffer after an error.
pub data Decoded (Json : Type 0) : Type 0 where
  value : Json → Decoded Json
  not_json : Bytes → Decoded Json

-- What `t.Errorf` reports.
pub data Complaint : Type 0 where
  wrong_status : Complaint
  wrong_header : Bytes → Complaint
  wrong_body : Complaint

has_value : Option (List Bytes) → Bytes → Bool
has_value none v = false
has_value (some vals) v = contains vals v

header_complaints : Map Bytes (List Bytes) → Map Bytes Bytes → List Complaint
unfolding has_value
header_complaints header [] = []
header_complaints header ((key, v) ∷ rest) =
    let others = header_complaints header rest in
    if has_value (lookup key header) v then others else wrong_header key ∷ others

module _ {Json : Type 0} (decode : Bytes → Decoded Json) (marshal : Json → Bytes)
    (null : Json) where
  same_json : Json → Json → List Complaint
  same_json expected actual = if marshal actual == marshal expected then [] else wrong_body ∷ []

  -- A body that is no JSON leaves the decoded value nil, and goes through the second test as well.
  body_complaints : Expected Json → Decoded Json → List Complaint
  unfolding same_json
  body_complaints expected (value v) = same_json expected.json_body v
  body_complaints expected (not_json text) =
      if text == expected.text_body then same_json expected.json_body null else wrong_body ∷ []

  -- The complaints in their order.
  unfoldable pub validate_request_response : Expected Json → Fetched → List Complaint
  unfolding header_complaints body_complaints
  validate_request_response expected resp =
      (if eqn resp.status_code expected.status_code then [] else wrong_status ∷ [])
      ++ header_complaints resp.header expected.headers
      ++ body_complaints expected (decode resp.body)
