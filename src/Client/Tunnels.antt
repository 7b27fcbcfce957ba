-- ===== src/Client/Tunnels.antt =====
-- internal/client/main.go: how a client asks for its tunnel, and asks for it again.
use mmar.Client.{
  MmarClient, goes_on, is_empty, create_tunnel_data, reclaim_data, reclaim_message, reclaim_over,
  send_or_exit, sent_or_exits, Attempt, reconnect_tunnel,
}
use mmar.Prelude.Text.{join, Lacks}
use mmar.Prelude.{
  ◌≡◌, refl, false, Bytes, List, [], ◌∷◌, ◌++◌, none, some, All, if◌then◌else◌, arith,
}
use mmar.Protocol.Conn.{Conn, IsOpen, send_open}
use mmar.Protocol.Framing.{wire}
use mmar.Protocol.Types
use mmar.Server.Loop.Parsing.{parse_tunnel_data-bar, parse_tunnel_data-name}
use mmar.Server.Loop.{parse_tunnel_data}

created_data :
    (name key : Bytes)
    → Lacks b'|' name
    → Lacks b'|' key
    → parse_tunnel_data (
        if is_empty name
        then (if is_empty key then [] else join b'|' (name ∷ key ∷ []))
        else join b'|' (name ∷ key ∷ []))
      ≡ (name, key)
unfolding is_empty join
created_data [] [] h k = parse_tunnel_data-name [] tt
created_data [] (c ∷ key) h k = parse_tunnel_data-bar [] (c ∷ key) h k
created_data (c ∷ name) key h k = parse_tunnel_data-bar (c ∷ name) key h k

reclaimed_data :
    (name key : Bytes)
    → Lacks b'|' name
    → Lacks b'|' key
    → parse_tunnel_data (if is_empty key then name else name ++ b'|' ∷ key) ≡ (name, key)
unfolding is_empty
reclaimed_data name [] h k = parse_tunnel_data-name name h
reclaimed_data name (c ∷ key) h k = parse_tunnel_data-bar name (c ∷ key) h k

-- The server reads the custom name and the key that a client asks for a tunnel with, and the name
-- and the key that it asks for it again with, when no bar stands in them.
pub parse_tunnel_data-client :
    (mc : MmarClient)
    → Lacks b'|' mc.custom_name
    → Lacks b'|' mc.api_key
    → Lacks b'|' mc.subdomain
    → (parse_tunnel_data (create_tunnel_data mc.config) ≡ (mc.custom_name, mc.api_key))
      × (parse_tunnel_data (reclaim_data mc) ≡ (mc.subdomain, mc.api_key))
unfolding create_tunnel_data reclaim_data
parse_tunnel_data-client mc h k n =
    (created_data mc.custom_name mc.api_key h k, reclaimed_data mc.subdomain mc.api_key n k)

-- Nobody was dialed, and the client was not told to stop.
abbrev pub Failed : Attempt → Type 0
Failed a = (a.cancelled ≡ false) × (a.dialed ≡ none)

reconnect_tunnel-asks :
    (failed later : List Attempt) (conn : Conn) (mc : MmarClient)
    → All Failed failed
    → IsOpen conn
    → (reconnect_tunnel (failed ++ record { cancelled = false; dialed = some conn } ∷ later) mc
        ≡ some (
            goes_on (record mc {
              conn = record conn {
                written =
                    conn.written
                    ++ wire
                        (record { msg_type = Types.reclaim_tunnel; msg_data = reclaim_data mc });
              };
            })))
unfolding reconnect_tunnel reclaim_over reclaim_message send_or_exit sent_or_exits
reconnect_tunnel-asks [] later conn mc h o =
    rw
      (send_open (record { msg_type = Types.reclaim_tunnel; msg_data = reclaim_data mc }) conn o
        (omega arith))
      refl
reconnect_tunnel-asks (a ∷ failed) later conn mc h o =
    rw (h.0.0, h.0.1) (reconnect_tunnel-asks failed later conn mc h.1 o)

-- A client that has lost its server dials until a connection is made, however often that fails, and
-- goes on over that one, if it is open. Behind what was written there before it sends one message, in
-- which the server reads that it asks for the subdomain that it had, with its key, when no bar stands
-- in these.
pub reconnect_tunnel-reclaims :
    (failed later : List Attempt) (conn : Conn) (mc : MmarClient)
    → All Failed failed
    → IsOpen conn
    → Lacks b'|' mc.subdomain
    → Lacks b'|' mc.api_key
    → (asked : Bytes) × (parse_tunnel_data asked ≡ (mc.subdomain, mc.api_key))
      × (reconnect_tunnel (failed ++ record { cancelled = false; dialed = some conn } ∷ later) mc
          ≡ some (
              goes_on (record mc {
                conn = record conn {
                  written =
                      conn.written
                      ++ wire (record { msg_type = Types.reclaim_tunnel; msg_data = asked });
                };
              })))
reconnect_tunnel-reclaims failed later conn mc h o name key = (
  reclaim_data mc,
  unfold reclaim_data in reclaimed_data mc.subdomain mc.api_key name key,
  reconnect_tunnel-asks failed later conn mc h o,
)
