-- ===== src/Tests/Protocol.antt =====
-- internal/protocol/main.go at concrete messages.
use mmar.Prelude.Decimal.{negsuc, atoi, itoa}
use mmar.Prelude.Io.{
  err_closed, ok, err, panic, invalid_message_protocol_version, invalid_message_type, Reader,
  read_byte, read_line, read_full,
}
use mmar.Prelude.{◌≡◌, refl, arith, codes, [], ◌∷◌, ◌++◌, none, false, leb, ◌&&◌, if◌then◌else◌}
use mmar.Protocol.Conn.{Conn, send_all, receive_all, receive_all-send_all}
use mmar.Protocol.Framing.{deserialize-serialize, deserialize_negative_length, is_valid_type_lem}
use mmar.Protocol.Sound.{deserialize_sound, ReadFrom}
use mmar.Protocol.Types
use mmar.Protocol.{
  TunnelMessage, serialize_message, deserialize_message, is_valid_tunnel_message_type,
  read_message_data,
}

abbrev hello : TunnelMessage
hello = record { msg_type = Types.request; msg_data = codes "hi\n" }

abbrev bye : TunnelMessage
bye = record { msg_type = Types.client_disconnect; msg_data = [] }

abbrev unknown : TunnelMessage
unknown = record { msg_type = 20; msg_data = [] }

serialize_message_test : serialize_message hello ≡ ok (4 ∷ 1 ∷ codes "3\nhi\n")
unfolding serialize_message is_valid_tunnel_message_type itoa
serialize_message_test = refl

unknown_test : serialize_message unknown ≡ err invalid_message_type
unfolding serialize_message is_valid_tunnel_message_type
unknown_test = refl

abbrev old_version : Reader
old_version = record { pending = 3 ∷ codes "rest"; fails_with = err_closed }

abbrev after_version : Reader
after_version = record { pending = codes "rest"; fails_with = err_closed }

old_version_test :
    deserialize_message old_version ≡ (err invalid_message_protocol_version, after_version)
unfolding deserialize_message read_byte
old_version_test = refl

abbrev incoming : Reader
incoming = record { pending = (4 ∷ 1 ∷ codes "3\nhi\n") ++ codes "more"; fails_with = err_closed }

abbrev left : Reader
left = record { pending = codes "more"; fails_with = err_closed }

received : deserialize_message incoming ≡ (ok hello, left)
unfolding deserialize_message read_byte is_valid_tunnel_message_type read_line atoi
    read_message_data read_full
received = refl

deserialize-serialize_example : deserialize_message incoming ≡ (ok hello, left)
deserialize-serialize_example =
    deserialize-serialize hello (4 ∷ 1 ∷ codes "3\nhi\n") (codes "more") err_closed
      serialize_message_test (omega arith)

deserialize_sound_example : ReadFrom incoming hello left
deserialize_sound_example = deserialize_sound incoming hello left received

abbrev conn : Conn
conn = record {
  remote_addr = codes "1.2.3.4:5";
  written = [];
  write_fails = none;
  write_closed = false;
  closed = false;
}

abbrev ended : Reader
ended = record { pending = []; fails_with = err_closed }

receive_all-send_all_example :
    receive_all 2
      (record { pending = (send_all (hello ∷ bye ∷ []) conn).written; fails_with = err_closed })
    ≡ (ok (hello ∷ bye ∷ []), ended)
receive_all-send_all_example =
    receive_all-send_all (hello ∷ bye ∷ []) conn err_closed (refl, refl, refl) refl
      ((omega arith, omega arith), ((omega arith, omega arith), tt))

minus_one : atoi (codes "-1") ≡ ok (negsuc 0)
unfolding atoi
minus_one = refl

abbrev hostile : Reader
hostile = record { pending = 4 ∷ 1 ∷ (codes "-1" ++ b'\n' ∷ codes "x"); fails_with = err_closed }

deserialize_negative_length_test : (deserialize_message hostile).0 ≡ panic
deserialize_negative_length_test =
    deserialize_negative_length 1 (codes "-1") (codes "x") err_closed 0 (omega arith) (ground arith)
      minus_one

last_type_test :
    is_valid_tunnel_message_type 19
    ≡ (if leb 1 19 && leb 19 19 then ok 19 else err invalid_message_type)
last_type_test = is_valid_type_lem 19
