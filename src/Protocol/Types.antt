-- ===== src/Protocol/Types.antt =====
-- internal/protocol/main.go: the message types, `uint8(iota + 1)` in order.
use mmar.Prelude.{ℕ}

abbrev pub request : ℕ
request = 1

abbrev pub response : ℕ
response = 2

abbrev pub create_tunnel : ℕ
create_tunnel = 3

abbrev pub reclaim_tunnel : ℕ
reclaim_tunnel = 4

abbrev pub tunnel_created : ℕ
tunnel_created = 5

abbrev pub tunnel_reclaimed : ℕ
tunnel_reclaimed = 6

abbrev pub client_disconnect : ℕ
client_disconnect = 7

abbrev pub client_tunnel_limit : ℕ
client_tunnel_limit = 8

abbrev pub localhost_not_running : ℕ
localhost_not_running = 9

abbrev pub dest_request_timedout : ℕ
dest_request_timedout = 10

abbrev pub heartbeat_from_client : ℕ
heartbeat_from_client = 11

abbrev pub heartbeat_from_server : ℕ
heartbeat_from_server = 12

abbrev pub heartbeat_ack : ℕ
heartbeat_ack = 13

abbrev pub invalid_resp_from_dest : ℕ
invalid_resp_from_dest = 14

abbrev pub invalid_subdomain_name : ℕ
invalid_subdomain_name = 15

abbrev pub subdomain_already_taken : ℕ
subdomain_already_taken = 16

abbrev pub auth_token_required : ℕ
auth_token_required = 17

abbrev pub auth_token_invalid : ℕ
auth_token_invalid = 18

abbrev pub auth_token_limit_exceeded : ℕ
auth_token_limit_exceeded = 19
