-- ===== src/Tests/Dns.antt =====
-- simulations/dnsserver/main.go: a query for `a.localhost`.
use mmar.Dns.{
  Slice, index, slice, copy, at_label, read_name, build_response, datagram, serving, panicked,
  start_dns_server,
}
use mmar.Dns.Answers.{Query, query_text, answer_text, build_response-answers}
use mmar.Dns.Serving.{answers, asked, start_dns_server-answers, start_dns_server-short}
use mmar.Dns.Labels.{labels_text, read_name_enough}
use mmar.Prelude.{Bool, true, Bytes, ◌+◌, ◌≡◌, refl, arith, codes, [], ◌∷◌, ◌++◌, some, length}

abbrev query : Query
query = record {
  id = (1, 2);
  flags = (1, 0);
  questions = (0, 1);
  answers = (0, 0);
  authorities = (0, 0);
  additionals = (0, 0);
  labels = codes "a" ∷ codes "localhost" ∷ [];
  type = (0, 28);
  class = (0, 1);
  extra = [];
}

build_response-answers_test :
    build_response (query_text query ++ 0 ∷ 0 ∷ []) (length (query_text query))
    ≡ some (answer_text query)
build_response-answers_test =
    build_response-answers query (0 ∷ 0 ∷ []) (omega arith, (omega arith, tt))

abbrev name : Slice
name = record { bytes = 1 ∷ 97 ∷ 0 ∷ 0 ∷ []; size = 4 }

read_name_enough_test : read_name (4 + 3) name 4 0 ≡ read_name 4 name 4 0
read_name_enough_test = read_name_enough 4 3 name 4 0 (omega arith)

read_name_test : read_name 4 name 4 0 ≡ some (1 ∷ 97 ∷ [], 2)
unfolding read_name at_label slice index copy
read_name_test = refl

abbrev fine : Bytes → Bool
fine address = true

start_dns_server-answers_example :
    start_dns_server fine fine (asked ((codes "u", query) ∷ []))
    ≡ (answers ((codes "u", query) ∷ []), serving)
unfolding labels_text
start_dns_server-answers_example =
    start_dns_server-answers fine fine ((codes "u", query) ∷ []) refl refl
      (((omega arith, (omega arith, tt)), omega arith), tt)

start_dns_server-short_test :
    start_dns_server fine fine (datagram (codes "short") (codes "u") true ∷ []) ≡ ([], panicked)
start_dns_server-short_test =
    start_dns_server-short fine fine (codes "short") (codes "u") true [] refl refl (omega arith)
