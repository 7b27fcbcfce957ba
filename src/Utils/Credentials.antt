-- ===== src/Utils/Credentials.antt =====
-- internal/utils/main.go: the check of the statistics page's user name and
-- password. SHA-256 is a parameter; the environment comes in as the two results of `LookupEnv`.
use mmar.Constants.{server_stats_default_username, server_stats_default_password}
use mmar.Prelude.{
  ℕ, ◌+◌, ◌-◌, ◌*◌, ◌/◌, ◌%◌, ◌<◌, ◌≡◌, ◌↔◌, refl, Bool, true, false, ◌&&◌, Bytes, [], ◌∷◌, Option,
  none, some, arith, All, ltb, leb, bytes_eq, ◌==◌, if◌then◌else◌,
}

-- `hex.Decode` of one digit.
from_hex_char : ℕ → Option ℕ
from_hex_char c =
    if leb b'0' c && leb c b'9'
    then some (c - b'0')
    else if leb b'a' c && leb c b'f'
    then some (c - b'a' + 10)
    else if leb b'A' c && leb c b'F'
    then some (c - b'A' + 10)
    else none

pair : Option ℕ → Option ℕ → Option Bytes → Option Bytes
pair (some hi) (some lo) (some rest) = some ((hi * 16 + lo) ∷ rest)
pair _ _ _ = none

-- Both digits of each byte; an odd digit at the end is an error.
unfoldable pub decode_hash : Bytes → Option Bytes
unfolding from_hex_char pair
decode_hash [] = some []
decode_hash (a ∷ []) = none
decode_hash (a ∷ b ∷ s) = pair (from_hex_char a) (from_hex_char b) (decode_hash s)

module _ (sha256 : Bytes → Bytes) where
  -- The hash that a user name or password must have: from the environment, or that of the default.
  expected_hash : Option Bytes → Bytes → Option Bytes
  expected_hash none fallback = some (sha256 fallback)
  expected_hash (some hash_str) fallback = decode_hash hash_str

  matches : Bytes → Bytes → Option Bytes → Option Bytes → Bool
  matches username password (some u) (some p) = sha256 username == u && sha256 password == p
  matches username password _ _ = false

  unfoldable pub valid_credentials : Option Bytes → Option Bytes → Bytes → Bytes → Bool
  unfolding expected_hash matches
  valid_credentials username_hash password_hash username password =
      matches username password (expected_hash username_hash server_stats_default_username)
        (expected_hash password_hash server_stats_default_password)

abbrev hex_digit : ℕ → ℕ
hex_digit d = if ltb d 10 then b'0' + d else b'a' + (d - 10)

-- `hex.EncodeToString`, by which an administrator writes the hashes.
abbrev hex_encode : Bytes → Bytes
hex_encode [] = []
hex_encode (b ∷ s) = hex_digit (b / 16) ∷ hex_digit (b % 16) ∷ hex_encode s

from_hex_digit : (d : ℕ) → d < 16 → from_hex_char (hex_digit d) ≡ some d
unfolding from_hex_char
from_hex_digit d h = ground arith

-- Decoding undoes the hexadecimal print of any bytes.
decode_hash-hex_encode : (s : Bytes) → All (λ b. b < 256) s → decode_hash (hex_encode s) ≡ some s
unfolding decode_hash
decode_hash-hex_encode [] h = refl
decode_hash-hex_encode (b ∷ s) h =
    rw
      (
        from_hex_digit (b / 16) (omega arith),
        from_hex_digit (b % 16) (omega arith),
        decode_hash-hex_encode s h.1,
      )
      (ground arith)

both_equal : (a b c d : Bytes) → ((a == b && c == d) ≡ true) ↔ ((a ≡ b) × (c ≡ d))
both_equal a b c d = ground (arith, bytes_eq.same_iff a b, bytes_eq.same_iff c d)

-- With hashes in the environment that were written from a user name and a password, credentials
-- are valid exactly if both have those hashes; with an empty environment, exactly if both have the
-- hashes of the default user name and password.
pub valid_credentials_iff :
    (sha256 : Bytes → Bytes) (u p username password : Bytes)
    → ((s : Bytes) → All (λ b. b < 256) (sha256 s))
    → ((valid_credentials sha256
            (some (hex_encode (sha256 u)))
            (some (hex_encode (sha256 p)))
            username
            password
          ≡ true)
        ↔ ((sha256 username ≡ sha256 u) × (sha256 password ≡ sha256 p)))
      × ((valid_credentials sha256 none none username password ≡ true) ↔ (
          (sha256 username ≡ sha256 server_stats_default_username)
          × (sha256 password ≡ sha256 server_stats_default_password)))
unfolding valid_credentials
valid_credentials_iff sha256 u p username password bytes =
    rw (decode_hash-hex_encode (sha256 u) (bytes u), decode_hash-hex_encode (sha256 p) (bytes p))
      (both_equal _ _ _ _, both_equal _ _ _ _)
