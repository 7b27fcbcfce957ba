-- ===== src/Server/Registry.antt =====
-- internal/server/main.go: how a client tunnel is registered and how it is
-- closed. Waiting for the network changes no state and is left out.
pub mod Tokens
pub mod Tables
pub mod Spec
pub mod Chosen
pub mod After
pub mod Refusals
pub mod Frames
pub mod Quiet
pub mod Closing
pub mod Invariant
pub mod Overwriting
pub mod Keyed
use mmar.Auth.{
  AuthManager, Validity, valid, token_required, token_invalid, validate_token, check_tunnel_limit,
  add_tunnel, remove_tunnel,
}
use mmar.Constants.{max_tunnels_per_ip}
use mmar.Prelude.Io.{Error}
use mmar.Prelude.Maps.{Map, lookup, insert, delete}
use mmar.Prelude.{
  ℕ, zero, suc, ◌+◌, Bool, true, false, Bytes, List, [], ◌∷◌, ◌++◌, Option, none, some, leb, length,
  if◌then◌else◌, bytes_eq, contains, erase,
}
use mmar.Protocol.{TunnelMessage}
use mmar.Protocol.Conn.{Conn, Tunnel, reserved_subdomain, send_message, close_write, close_conn}
use mmar.Protocol.Types
use mmar.Server.Names.{is_valid_subdomain_name, generate_unique_subdomain}
use mmar.Server.State.{ClientTunnel, MmarServer, Shared, update, Running, running, crashed}
use mmar.Utils.Address.{extract_ip}

-- Why no tunnel was made.
pub data Refusal : Type 0 where
  auth_token_missing auth_token_wrong auth_limit_exceeded auth_not_configured : Refusal
  invalid_subdomain_name subdomain_already_taken client_max_tunnels_reached : Refusal
  unique_subdomain_not_sent : Refusal
  -- the loop that draws a name does not end
  no_subdomain_drawn : Refusal

pub data Creation : Type 0 where
  created : ClientTunnel → Creation
  refused : Refusal → Creation

-- The reply on a tunnel's connection, with its error.
unfoldable pub send_on : ℕ → TunnelMessage → MmarServer → Option Error × MmarServer
send_on c m s =
    let (e, conn) = send_message m (s.conns c) in (e, record s { conns = update s.conns c conn })

abbrev bare : ℕ → TunnelMessage
bare t = record { msg_type = t; msg_data = [] }

close_write_on : ℕ → MmarServer → MmarServer
close_write_on c s = record s { conns = update s.conns c (close_write (s.conns c)) }

-- A failure to send is only logged.
pub send_error_and_close_write : ℕ → ℕ → MmarServer → MmarServer
unfolding send_on close_write_on
send_error_and_close_write msg_type c s = close_write_on c (send_on c (bare msg_type) s).1

by_limit : AuthManager → Bytes → Validity → Option (ℕ × Refusal)
by_limit am token token_required = some (Types.auth_token_required, auth_token_missing)
by_limit am token token_invalid = some (Types.auth_token_invalid, auth_token_wrong)
by_limit am token (valid limit) =
    if check_tunnel_limit am token
    then some (Types.auth_token_limit_exceeded, auth_limit_exceeded)
    else none

-- The message and the error by which a token is turned down.
unfoldable pub authenticate : Option AuthManager → Bytes → Option (ℕ × Refusal)
unfolding by_limit
authenticate (some am) token = by_limit am token (validate_token am token)
authenticate none [] = none
authenticate none (c ∷ token) = some (Types.auth_token_invalid, auth_not_configured)

pub data Choice : Type 0 where
  chosen : Bytes → Choice
  turned_down : ℕ → Refusal → Choice
  undrawn : Choice

free_name : Bytes → Option ClientTunnel → Choice
free_name name (some ct) = turned_down Types.subdomain_already_taken subdomain_already_taken
free_name name none = chosen name

drawn_name : Option Bytes → Choice
drawn_name none = undrawn
drawn_name (some name) = chosen name

pub choose_subdomain : Map Bytes ClientTunnel → (ℕ → ℕ → ℕ) → Bytes → Choice
unfolding free_name drawn_name
choose_subdomain clients draws [] = drawn_name (generate_unique_subdomain clients draws)
choose_subdomain clients draws (c ∷ name) =
    if is_valid_subdomain_name (c ∷ name)
    then free_name (c ∷ name) (lookup (c ∷ name) clients)
    else turned_down Types.invalid_subdomain_name invalid_subdomain_name

abbrev pub tunnels_or_nil : Option (List Bytes) → List Bytes
tunnels_or_nil none = []
tunnels_or_nil (some ids) = ids

-- The tunnels that are counted for an address.
abbrev pub tunnels_at : MmarServer → Bytes → List Bytes
tunnels_at s ip = tunnels_or_nil (lookup ip s.tunnels_per_ip)

initialized : Bytes → Option (List Bytes) → MmarServer → MmarServer
initialized ip (some ids) s = s
initialized ip none s = record s { tunnels_per_ip = insert ip [] s.tunnels_per_ip }

-- `TunnelLimitedIP`, which also makes the list of an address that has none.
unfoldable pub tunnel_limited_ip : MmarServer → Bytes → Bool × MmarServer
unfolding initialized
tunnel_limited_ip s ip = (
  leb max_tunnels_per_ip (length (tunnels_at s ip)),
  initialized ip (lookup ip s.tunnels_per_ip) s,
)

drained : ClientTunnel → MmarServer → MmarServer
drained ct s = record s {
  shareds = update s.shareds ct.shared (record (s.shareds ct.shared) { channels_closed = true });
}

-- `drainChannels`. On channels that are closed already the first receive gives a zero request,
-- whose nil `cancel` is called. Nothing in the program sends on these channels.
drain_channels : ClientTunnel → MmarServer → Running MmarServer
unfolding drained
drain_channels ct s =
    if (s.shareds ct.shared).channels_closed then crashed else running (drained ct s)

unfoldable pub close_connection : ℕ → MmarServer → MmarServer
close_connection c s = record s { conns = update s.conns c (close_conn (s.conns c)) }

close_drained : ClientTunnel → Running MmarServer → Running MmarServer
unfolding close_connection
close_drained ct crashed = crashed
close_drained ct (running s) = running (close_connection ct.conn s)

-- `ClientTunnel.close`; the graceful one only waits in between.
pub close : ClientTunnel → MmarServer → Running MmarServer
unfolding drain_channels close_drained
close ct s = close_drained ct (drain_channels ct s)

unfoldable pub auth_add : Bytes → Bytes → Option AuthManager → Option AuthManager
auth_add token id none = none
auth_add [] id (some am) = some am
auth_add (c ∷ token) id (some am) = some (add_tunnel am (c ∷ token) id)

unfoldable pub auth_remove : Bytes → Bytes → Option AuthManager → Option AuthManager
auth_remove token id none = none
auth_remove [] id (some am) = some am
auth_remove (c ∷ token) id (some am) = some (remove_tunnel am (c ∷ token) id)

-- The address of a connection, as it is counted.
abbrev pub ip_of : MmarServer → ℕ → Bytes
ip_of s c = extract_ip (s.conns c).remote_addr

-- The tunnel enters the three tables that count it.
pub record_tunnel : ClientTunnel → Bytes → MmarServer → MmarServer
unfolding auth_add
record_tunnel ct ip s = record s {
  clients = insert ct.id ct s.clients;
  tunnels_per_ip = insert ip (tunnels_at s ip ++ ct.id ∷ []) s.tunnels_per_ip;
  auth_manager = auth_add ct.auth_token ct.id s.auth_manager;
}

limit_reached : ClientTunnel → MmarServer → Running (Creation × MmarServer)
limit_reached ct s =
    elim (close ct (send_error_and_close_write Types.client_tunnel_limit ct.conn s)) [
      | running s' ↦ running (refused client_max_tunnels_reached, s')
      | crashed ↦ crashed
    ]

announced : ClientTunnel → Option Error × MmarServer → Creation × MmarServer
announced ct (none, s) = (created ct, s)
announced ct (some e, s) = (refused unique_subdomain_not_sent, s)

announce : ClientTunnel → MmarServer → Creation × MmarServer
unfolding announced send_on
announce ct s =
    announced ct (send_on ct.conn (record { msg_type = Types.tunnel_created; msg_data = ct.id }) s)

-- A fresh table of requests and channels for the tunnel that is being made.
pub with_shared : MmarServer → MmarServer
with_shared s = record s {
  shareds = update s.shareds s.next_shared (record { inflight = []; channels_closed = false });
  next_shared = s.next_shared + 1;
}

abbrev pub tunnel_made : Tunnel → Bytes → Bytes → MmarServer → ClientTunnel
tunnel_made t name token s = record {
  tunnel = record t { id = name };
  shared = s.next_shared;
  auth_token = token;
}

-- With the name settled: the limit of the address, the three tables, the reply.
register : Tunnel → Bytes → Bytes → MmarServer → Running (Creation × MmarServer)
register t name token s =
    let ct = tunnel_made t name token s in
    let ip = ip_of s t.conn in
    let (limited, s') = tunnel_limited_ip (with_shared s) ip in
    if limited then limit_reached ct s' else running (announce ct (record_tunnel ct ip s'))

by_choice : Tunnel → Bytes → MmarServer → Choice → Running (Creation × MmarServer)
by_choice t token s (chosen name) = register t name token s
by_choice t token s (turned_down msg_type why) =
    running (refused why, send_error_and_close_write msg_type t.conn s)
by_choice t token s undrawn = running (refused no_subdomain_drawn, s)

by_token :
    (ℕ → ℕ → ℕ)
    → Tunnel
    → Bytes
    → Bytes
    → MmarServer
    → Option (ℕ × Refusal)
    → Running (Creation × MmarServer)
by_token draws t subdomain token s (some (msg_type, why)) =
    running (refused why, send_error_and_close_write msg_type t.conn s)
by_token draws t subdomain token s none =
    by_choice t token s (choose_subdomain s.clients draws subdomain)

unfoldable pub new_client_tunnel :
    (ℕ → ℕ → ℕ) → Tunnel → Bytes → Bytes → MmarServer → Running (Creation × MmarServer)
unfolding by_token by_choice authenticate choose_subdomain register with_shared record_tunnel
    limit_reached announce tunnel_limited_ip close send_error_and_close_write
new_client_tunnel draws t subdomain token s =
    by_token draws t subdomain token s (authenticate s.auth_manager token)

-- `slices.Index` and `slices.Delete`; a list without the tunnel is not stored again.
erase_at : Bytes → Bytes → MmarServer → MmarServer
erase_at ip id s =
    if contains (tunnels_at s ip) id
    then record s { tunnels_per_ip = insert ip (erase id (tunnels_at s ip)) s.tunnels_per_ip }
    else s

-- What closing a tunnel does to the tables that count it.
unregister : ClientTunnel → MmarServer → MmarServer
unfolding erase_at auth_remove
unregister ct s =
    let s1 = record s { clients = delete ct.id s.clients } in
    let s2 = erase_at (ip_of s ct.conn) ct.id s1 in
    record s2 { auth_manager = auth_remove ct.auth_token ct.id s2.auth_manager }

unfoldable pub close_client_tunnel : ClientTunnel → MmarServer → Running MmarServer
unfolding unregister close
close_client_tunnel ct s = close ct (unregister ct s)

-- The tunnel is a nil pointer until one is made; `ReservedSubdomain` reads through it.
unfoldable pub close_client_tunnel_or_conn :
    Option ClientTunnel → Tunnel → MmarServer → Running MmarServer
unfolding close_connection
close_client_tunnel_or_conn none t s = crashed
close_client_tunnel_or_conn (some ct) t s =
    if reserved_subdomain ct.tunnel
    then close_client_tunnel ct s
    else running (close_connection t.conn s)
