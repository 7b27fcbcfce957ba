-- ===== src/Dns/Serving.antt =====
-- simulations/dnsserver/main.go: the server answers whoever asks.
use mmar.Dns.Answers.{Query, query_text, answer_text, build_response-answers}
use mmar.Dns.Labels.{IsLabel}
use mmar.Dns.{
  after_handler, by_write, replied, DatagramRead, datagram, serving, panicked, fatal,
  localhost_dns_server, buffer_size, buffer_of, serve_reads, start_dns_server, tail_slice, slice,
  zeros, build_response,
}
use mmar.Prelude.{
  ◌∙◌, ◌+◌, none, length-append, ℕ, zero, suc, ◌-◌, ◌<◌, ◌≤◌, ◌≡◌, refl, ap, Bool, true, false,
  Bytes, List, [], ◌∷◌, ◌++◌, arith, length, take, All,
}

take_all : (n : ℕ) (s : Bytes) → length s ≤ n → take n s ≡ s
take_all zero [] h = refl
take_all zero (c ∷ s) h = absurd (omega (arith, h))
take_all (suc n) [] h = refl
take_all (suc n) (c ∷ s) h = ap (◌∷◌ c) (take_all n s (omega (arith, h)))

-- Queries that fit into a buffer, each with its sender.
abbrev pub Fitting : List (Bytes × Query) → Type 0
Fitting [] = Unit
Fitting ((sender, x) ∷ queries) =
    (All IsLabel x.labels × (length (query_text x) ≤ buffer_size)) × Fitting queries

abbrev pub asked : List (Bytes × Query) → List DatagramRead
asked [] = []
asked ((sender, x) ∷ queries) = datagram (query_text x) sender true ∷ asked queries

abbrev pub answers : List (Bytes × Query) → List (Bytes × Bytes)
answers [] = []
answers ((sender, x) ∷ queries) = (sender, answer_text x) ∷ answers queries

length-zeros : (n : ℕ) → length (zeros n) ≡ n
length-zeros zero = refl
length-zeros (suc n) = ap suc (length-zeros n)

length-padded :
    (sent : Bytes)
    → length (sent ++ zeros (buffer_size - length sent)) ≡ length sent + (buffer_size - length sent)
length-padded sent =
    length-append sent (zeros (buffer_size - length sent))
    ∙ ap (λ n. length sent + n) (length-zeros (buffer_size - length sent))

-- What the handler gets for a datagram that fits.
handled-whole :
    (sent : Bytes)
    → length sent ≤ buffer_size
    → build_response (buffer_of sent) (length (take buffer_size sent))
      ≡ build_response (sent ++ zeros (buffer_size - length sent)) (length sent)
handled-whole sent fits = rw (take_all buffer_size sent fits) refl

serve_reads-answers :
    (queries : List (Bytes × Query))
    → Fitting queries
    → serve_reads (asked queries) ≡ (answers queries, serving)
unfolding serve_reads by_write
serve_reads-answers [] h = refl
serve_reads-answers ((sender, x) ∷ queries) h =
    ap (λ o. after_handler sender (by_write true o) (serve_reads (asked queries)))
      (handled-whole (query_text x) h.0.1
        ∙ build_response-answers x (zeros (buffer_size - length (query_text x))) h.0.0)
    ∙ ap (after_handler sender (replied (answer_text x))) (serve_reads-answers queries h.1)

-- A response that cannot be written ends the server, whatever comes behind it.
pub start_dns_server-unwritten :
    (resolves listens : Bytes → Bool) (sender : Bytes) (x : Query) (reads : List DatagramRead)
    → resolves localhost_dns_server ≡ true
    → listens localhost_dns_server ≡ true
    → All IsLabel x.labels
    → length (query_text x) ≤ buffer_size
    → start_dns_server resolves listens (datagram (query_text x) sender false ∷ reads) ≡ ([], fatal)
unfolding start_dns_server serve_reads by_write
start_dns_server-unwritten resolves listens sender x reads found bound labels fits =
    rw (found, bound)
      (ap (λ o. after_handler sender (by_write false o) (serve_reads reads))
        (handled-whole (query_text x) fits
          ∙ build_response-answers x (zeros (buffer_size - length (query_text x))) labels))

-- A server whose address can be listened on answers every query whose labels are labels, that fits
-- into its buffer and to which a response can be written: whoever sent it gets the query's id and
-- question, and one record with the address ::1; and the server goes on.
pub start_dns_server-answers :
    (resolves listens : Bytes → Bool) (queries : List (Bytes × Query))
    → resolves localhost_dns_server ≡ true
    → listens localhost_dns_server ≡ true
    → Fitting queries
    → start_dns_server resolves listens (asked queries) ≡ (answers queries, serving)
unfolding start_dns_server
start_dns_server-answers resolves listens queries found bound h =
    rw (found, bound, serve_reads-answers queries h) refl

build_response-short :
    (sent : Bytes)
    → length sent < 12
    → build_response (sent ++ zeros (buffer_size - length sent)) (length sent) ≡ none
unfolding build_response tail_slice slice
build_response-short sent short = ground (arith, length-padded sent)

-- A datagram of less than twelve bytes ends the server, whatever comes behind it.
pub start_dns_server-short :
    (resolves listens : Bytes → Bool) (sent sender : Bytes) (writes : Bool)
    (reads : List DatagramRead)
    → resolves localhost_dns_server ≡ true
    → listens localhost_dns_server ≡ true
    → length sent < 12
    → start_dns_server resolves listens (datagram sent sender writes ∷ reads) ≡ ([], panicked)
unfolding start_dns_server serve_reads by_write
start_dns_server-short resolves listens sent sender writes reads found bound short =
    rw (found, bound)
      (ap (λ o. after_handler sender (by_write writes o) (serve_reads reads))
        (handled-whole sent (omega (arith, short)) ∙ build_response-short sent short))
