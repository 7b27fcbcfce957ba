-- ===== src/Tests/Names.antt =====
-- internal/server: names, request ids and bodies at concrete values.
use mmar.Prelude.Maps.{Map, lookup}
use mmar.Prelude.Text.{to_lower}
use mmar.Prelude.{
  All, Bytes, ◌^◌, ℕ, zero, suc, ◌<◌, ◌≡◌, ◌≢◌, ◌↔◌, ◌≤◌, refl, arith, codes, List, [], ◌∷◌, none,
  some, true, false, ltb, if◌then◌else◌, contains,
}
use mmar.Constants.{max_req_body_size}
use mmar.Server.Names.{is_valid_subdomain_name, generate_random_id, generate_unique_subdomain}
use mmar.Server.Names.Fresh.{generate_unique_subdomain_first}
use mmar.Server.Names.Valid.{IsSubdomainName, is_valid_subdomain_name_iff, upper_case_unreachable}
use mmar.Server.RequestId.{
  put_uint32, uint32, generate_random_uint32, generate_unique_request_id, uint32-put_uint32,
  generate_unique_request_id-bound, generate_unique_request_id_first,
}
use mmar.Server.Serialize.{BodyRead, more, at_eof, read_body, given_up, sent}
use mmar.Server.Serialize.Limits.{read_body_lem, sent-small}
use mmar.Server.State.{max_req_body_size_err}
use mmar.Tests.Samples.{serving, zeros}
use mmar.Utils.{extract_subdomain}

is_valid_subdomain_name_iff_example :
    (is_valid_subdomain_name (codes "a-b") ≡ true) ↔ IsSubdomainName (codes "a-b")
is_valid_subdomain_name_iff_example = is_valid_subdomain_name_iff (codes "a-b")

valid_test : is_valid_subdomain_name (codes "a-b") ≡ true
unfolding is_valid_subdomain_name contains to_lower
valid_test = refl

reserved_test : is_valid_subdomain_name (codes "Admin") ≡ false
unfolding is_valid_subdomain_name contains to_lower
reserved_test = refl

abc-changes : to_lower (codes "Abc") ≢ codes "Abc"
unfolding to_lower
abc-changes e = absurd (ground arith)

upper_case_unreachable_test : extract_subdomain (codes "Abc.mmar.dev") ≢ codes "Abc"
upper_case_unreachable_test =
    upper_case_unreachable (codes "Abc") (codes "Abc.mmar.dev") abc-changes

generate_unique_subdomain_first_test :
    generate_unique_subdomain serving.clients zeros ≡ some (generate_random_id (zeros 0))
unfolding lookup
generate_unique_subdomain_first_test = generate_unique_subdomain_first serving.clients zeros refl

-- The first draw is 0, the others are 5.
abbrev zero_first : ℕ → ℕ
zero_first zero = 0
zero_first (suc i) = 5

zero_first-zeros : (j : ℕ) → j < 1 → zero_first j ≡ 0
zero_first-zeros zero h = refl
zero_first-zeros (suc j) h = absurd (omega arith)

abbrev inflight : Map ℕ ℕ
inflight = (5, 2) ∷ []

generate_unique_request_id_first_test : generate_unique_request_id inflight zero_first 4 ≡ some 5
unfolding lookup
generate_unique_request_id_first_test =
    generate_unique_request_id_first inflight zero_first 1 4 refl (omega arith) zero_first-zeros
      (λ e. absurd (omega (arith, e)))

generate_random_uint32_test : generate_random_uint32 (18 ∷ 52 ∷ 86 ∷ 120 ∷ []) ≡ 305419896
unfolding generate_random_uint32
generate_random_uint32_test = refl

-- The reader fails once, and gives the number 5 then.
abbrev failing_first : ℕ → Bytes
failing_first zero = []
failing_first (suc i) = 0 ∷ 0 ∷ 0 ∷ 5 ∷ []

generate_unique_request_id-bound_test : ◌≢◌ {A = ℕ} 5 0 × (5 < 2 ^ 32)
unfolding generate_unique_request_id generate_random_uint32 lookup
generate_unique_request_id-bound_test =
    generate_unique_request_id-bound inflight failing_first 4 5 (λ i. bytes i) refl
  where
    bytes : (i : ℕ) → All (λ b. b < 256) (failing_first i)
    bytes zero = tt
    bytes (suc i) = (omega arith, (omega arith, (omega arith, (omega arith, tt))))

four_bytes_test : uint32 (put_uint32 305419896) ≡ 305419896
four_bytes_test = uint32-put_uint32 305419896 (omega arith)

abbrev reads : List BodyRead
reads =
    record { bytes = codes "ab"; timed_out = false; after = more }
    ∷ record { bytes = codes "c"; timed_out = false; after = at_eof }
    ∷ []

read_body_lem_example :
    read_body reads none 0 []
    ≡ (if ltb max_req_body_size 3 then given_up max_req_body_size_err else sent (codes "abc"))
read_body_lem_example = read_body_lem reads (refl, refl, (refl, refl))

reads-sent : read_body reads none 0 [] ≡ sent (codes "abc")
unfolding read_body
reads-sent = refl

sent-small_test : 3 ≤ max_req_body_size
sent-small_test = sent-small reads none 0 [] (codes "abc") refl reads-sent
