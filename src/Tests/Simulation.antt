-- ===== src/Tests/Simulation.antt =====
-- simulations/simulation_utils.go: a tunnel's lines, a response that is judged and one that is read.
use mmar.Logger.{log_tunnel_created}
use mmar.Prelude.Text.{split}
use mmar.Prelude.{◌≡◌, ◌↔◌, refl, ◌⊎◌, Bytes, codes, [], ◌∷◌, ◌++◌, some, arith}
use mmar.Simulation.Judging.{Accepted, validate_request_response_iff}
use mmar.Simulation.Logged.{local_url, tunnel_urls-log_tunnel_created}
use mmar.Simulation.Reading.{manual_read_response-reads}
use mmar.Simulation.Urls.{IsTunnelUrl, extract_tunnel_url_lem}
use mmar.Simulation.{
  Decoded, not_json, Expected, Fetched, host_char, extract_tunnel_url, match_here, tunnel_urls,
  validate_request_response, read_bytes, manual_read_response, response,
}

tunnel_urls-log_tunnel_created_example :
    tunnel_urls (
      split b'\n'
        (log_tunnel_created (codes "a-1") (codes "localhost") (codes "443") (codes "8000")).1)
    ≡ local_url (codes "a-1") (codes "3376") ∷ []
unfolding host_char
tunnel_urls-log_tunnel_created_example =
    tunnel_urls-log_tunnel_created (codes "a-1") (codes "443") (codes "8000")
      (record { nonempty = λ e. absurd (cc); all = (refl, (refl, (refl, tt))) })
      (record { nonempty = λ e. absurd (cc); all = (refl, (refl, (refl, tt))) })
      (omega arith, (omega arith, (omega arith, (omega arith, tt))))

abbrev line : Bytes
line = codes "see http://a.localhost:80/x"

extract_tunnel_url_test : extract_tunnel_url line ≡ codes "http://a.localhost:80"
unfolding extract_tunnel_url match_here host_char
extract_tunnel_url_test = refl

extract_tunnel_url_lem_example :
    ((before : Bytes) × (rest : Bytes) × (line ≡ before ++ (extract_tunnel_url line ++ rest))
      × IsTunnelUrl (extract_tunnel_url line))
    ⊎ ((extract_tunnel_url line ≡ [])
        × ((before url rest : Bytes) → line ≡ before ++ (url ++ rest) → ¬ IsTunnelUrl url))
extract_tunnel_url_lem_example = extract_tunnel_url_lem line

-- No body is JSON, and values are printed as themselves.
abbrev no_json : Bytes → Decoded Bytes
no_json body = not_json body

abbrev printed : Bytes → Bytes
printed v = v

abbrev expected : Expected Bytes
expected = record {
  status_code = 200;
  headers = (codes "Connection", codes "close") ∷ [];
  json_body = codes "null";
  text_body = codes "hi";
}

abbrev fetched : Fetched
fetched = record {
  status_code = 200;
  header = (codes "Connection", codes "close" ∷ []) ∷ [];
  body = codes "hi";
}

validate_request_response_iff_example :
    (validate_request_response no_json printed (codes "null") expected fetched ≡ [])
    ↔ Accepted no_json printed (codes "null") expected fetched
validate_request_response_iff_example =
    validate_request_response_iff no_json printed (codes "null") expected fetched

manual_read_response-reads_test :
    manual_read_response some (read_bytes (codes "hi") ∷ read_bytes (codes "more") ∷ [])
    ≡ response (codes "hi")
manual_read_response-reads_test =
    (manual_read_response-reads some [] (codes "hi") (read_bytes (codes "more") ∷ []) (codes "hi")
        tt refl).0
      (omega arith)
