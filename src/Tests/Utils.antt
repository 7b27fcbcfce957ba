-- ===== src/Tests/Utils.antt =====
-- internal/utils/main.go at concrete addresses and credentials. The hash is the length, in one byte.
use mmar.Prelude.Io.{cut_at}
use mmar.Prelude.Text.{to_lower}
use mmar.Constants.{server_stats_default_username, server_stats_default_password}
use mmar.Prelude.{
  ◌≡◌, ◌<◌, ◌%◌, length, ◌↔◌, refl, arith, Bytes, All, codes, [], ◌∷◌, none, some, true,
}
use mmar.Utils.Address.{extract_ip, extract_subdomain_lem, extract_ip-plain, extract_ip-bracketed}
use mmar.Utils.Credentials.{valid_credentials, valid_credentials_iff}
use mmar.Utils.{extract_subdomain}

extract_subdomain_lem_test : extract_subdomain (codes "AbC.mmar.dev") ≡ codes "abc"
unfolding to_lower
extract_subdomain_lem_test = extract_subdomain_lem (codes "AbC") (codes "mmar.dev") (ground arith)

extract_ip-plain_test : extract_ip (codes "1.2.3.4:80") ≡ codes "1.2.3.4"
extract_ip-plain_test =
    extract_ip-plain (codes "1.2.3.4") (codes "80") (ground arith) (ground arith)

extract_ip-bracketed_test : extract_ip (codes "[::1]:80") ≡ codes "::1"
extract_ip-bracketed_test =
    extract_ip-bracketed (codes "::1") (codes "80") (ground arith) (ground arith)

no_port_test : extract_ip (codes "1.2.3.4") ≡ []
unfolding extract_ip cut_at
no_port_test = refl

-- A hash of one byte: the length of the text.
abbrev short_hash : Bytes → Bytes
short_hash s = length s % 256 ∷ []

short_hash-bytes : (s : Bytes) → All (λ b. b < 256) (short_hash s)
short_hash-bytes s = (omega arith, tt)

valid_credentials_iff_example :
    ((valid_credentials short_hash
          (some (codes "03"))
          (some (codes "02"))
          (codes "ann")
          (codes "pw")
        ≡ true)
      ↔ ((short_hash (codes "ann") ≡ short_hash (codes "bob"))
          × (short_hash (codes "pw") ≡ short_hash (codes "qx"))))
    × ((valid_credentials short_hash none none (codes "ann") (codes "pw") ≡ true) ↔ (
        (short_hash (codes "ann") ≡ short_hash server_stats_default_username)
        × (short_hash (codes "pw") ≡ short_hash server_stats_default_password)))
valid_credentials_iff_example =
    valid_credentials_iff short_hash (codes "bob") (codes "qx") (codes "ann") (codes "pw")
      short_hash-bytes
