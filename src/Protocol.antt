-- ===== src/Protocol.antt =====
-- internal/protocol/main.go: tunnel messages, and how they are written to and read from a
-- connection.
pub mod Types
pub mod Framing
pub mod Errors
pub mod Conn
pub mod Sound
use mmar.Constants.{tunnel_message_data_delimiter, tunnel_message_protocol_version}
use mmar.Prelude.Decimal.{ℤ, pos, negsuc, atoi, itoa}
use mmar.Prelude.Io.{
  Error, Outcome, ok, err, panic, invalid_message_protocol_version, invalid_message_type, Read,
  Reader, ◌>>=◌, ◌>>◌, lift, read_byte, read_full, read_line,
}
use mmar.Prelude.{
  ℕ, zero, suc, ◌+◌, ◌-◌, ◌^◌, ◌≡◌, refl, Bool, true, false, not, Bytes, List, [], ◌∷◌, ◌++◌, eqn,
  ltb, length, if◌then◌else◌,
}
use Types.{request, auth_token_limit_exceeded}

-- `for msgType := REQUEST; msgType <= AUTH_TOKEN_LIMIT_EXCEEDED; msgType++`, by the rounds left.
scan_types : ℕ → ℕ → ℕ → Outcome ℕ
scan_types zero mt msg_type = err invalid_message_type
scan_types (suc rounds) mt msg_type =
    let rest = scan_types rounds mt (msg_type + 1) in if eqn mt msg_type then ok msg_type else rest

unfoldable pub is_valid_tunnel_message_type : ℕ → Outcome ℕ
unfolding scan_types
is_valid_tunnel_message_type mt = scan_types (auth_token_limit_exceeded + 1 - request) mt request

pub record TunnelMessage : Type 0 where
  pub msg_type : ℕ
  pub msg_data : Bytes

-- `bytes.Join` of the parts with no separator.
abbrev joined : List Bytes → Bytes
joined [] = []
joined (p ∷ ps) = p ++ joined ps

frame : Bytes → Outcome ℕ → Outcome Bytes
frame payload (ok msg_type) = ok (
    joined (
      (tunnel_message_protocol_version ∷ msg_type ∷ [])
      ∷ itoa (length payload)
      ∷ (tunnel_message_data_delimiter ∷ [])
      ∷ payload
      ∷ []))
frame payload (err e) = err e
frame payload panic = panic

unfoldable pub serialize_message : TunnelMessage → Outcome Bytes
unfolding frame
serialize_message tm = frame tm.msg_data (is_valid_tunnel_message_type tm.msg_type)

-- `make([]byte, length)` panics on a negative length, and on one above what the 64-bit run time
-- can address.
abbrev pub max_alloc : ℕ
max_alloc = 2 ^ 48

make_len : ℤ → Outcome ℕ
make_len (pos n) = if ltb max_alloc n then panic else ok n
make_len (negsuc n) = panic

unfoldable pub read_message_data : ℤ → Read Bytes
unfolding make_len
read_message_data len = do n ← lift (make_len len); read_full n

-- The version byte, checked before anything else is read.
check_version : ℕ → Outcome (Unit {0})
check_version b =
    if eqn b tunnel_message_protocol_version then ok tt else err invalid_message_protocol_version

-- A message that is read in full is the result; the reader keeps what follows it.
unfoldable pub deserialize_message : Read TunnelMessage
unfolding check_version
deserialize_message = do
  version ← read_byte
  lift (check_version version)
  prefix ← read_byte
  msg_type ← lift (is_valid_tunnel_message_type prefix)
  length_str ← read_line tunnel_message_data_delimiter
  msg_length ← lift (atoi length_str)
  payload ← read_message_data msg_length
  lift (ok (record { msg_type = msg_type; msg_data = payload }))
