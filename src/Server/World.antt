-- ===== src/Server/World.antt =====
-- internal/server/main.go: the whole server, with its goroutines. A state is the server, the loop of
-- each connection, the handler of each HTTP request, and the goroutines that handle responses; a
-- step is one of them going on until it waits, so that the changes that it makes to the tables are
-- one. `newClientTunnel` holds the server's lock; `closeClientTunnel` does not, nor does the check of
-- a token's limit before the lock is taken. Histories in which a closing overlaps another change of the
-- tables, or such a check another request for a tunnel, are not among these. What the network, the
-- users and the random generator do is chosen freely by each step.
pub mod Routing
pub mod Keeping
pub mod Owning
pub mod Settled
pub mod Provenance
use mmar.Http.{ServerResponse, ResponseWriter}
use mmar.Prelude.Io.{Error, Outcome, ok}
use mmar.Prelude.Maps.{Map, lookup}
use mmar.Prelude.{
  ℕ, ◌≡◌, ◌≢◌, false, Bytes, codes, List, [], ◌∷◌, ◌++◌, Option, none, some, bytes_eq, ◌==◌,
}
use mmar.Protocol.Conn.{Conn, Tunnel}
use mmar.Protocol.{TunnelMessage}
use mmar.Server.Cancel.{cancel}
use mmar.Server.Loop.{Next, again, stop, response_of, process_message, send_heartbeat}
use mmar.Server.Requests.{
  Begun, stats, done, tunneled, reading, undrawn, ParsedResponse, with_request, finish,
  handle_response_messages,
}
use mmar.Server.Serialize.{Request, serialize_request}
use mmar.Server.State.{context_canceled, ClientTunnel, MmarServer, update, Running, running}
use mmar.Utils.{extract_subdomain}

-- The loop of a connection: not accepted yet, reading with the tunnel that it has, or over.
pub data Stage : Type 0 where
  unused : Stage
  reading_from : Tunnel → Option ClientTunnel → Stage
  over : Stage

-- The handler of a request: not there yet, reading the request's body for a tunnel, waiting for the
-- response under an id, or at its end, with or without having sent the request.
pub data Handler : Type 0 where
  fresh : Handler
  preparing : ClientTunnel → Request → ResponseWriter → Handler
  underway : ClientTunnel → ℕ → Handler
  ended : ClientTunnel → ℕ → Handler
  unsent : Handler

pub record World : Type 0 where
  pub server : MmarServer
  pub loops : ℕ → Stage
  pub handlers : ℕ → Handler
  pub goroutines : List (Option ClientTunnel × TunnelMessage)

abbrev pub stage_after : Tunnel → Next → Stage
stage_after t (again ct) = reading_from t ct
stage_after t stop = over

abbrev pub handler_after : Begun → Handler
handler_after (tunneled ct req_id) = underway ct req_id
handler_after _ = unsent

module _ (read_response : ℕ → Bytes → ParsedResponse) (write_response : ServerResponse → Bytes)
    (write_headers : Map Bytes (List Bytes) → Bytes) where
  pub data Step (w : World) : World → Type 0 where
    -- `handleTcpConnection`, on a connection that the network has made
    accept :
        (c created_on : ℕ) (conn : Conn)
        → w.loops c ≡ unused
        → Step w (record w {
          server = record w.server { conns = update w.server.conns c conn };
          loops =
              update w.loops c
                (reading_from (record { id = []; conn = c; created_on = created_on }) none);
        })
    -- a round whose message is handed to a goroutine
    spawn :
        (c : ℕ) (t : Tunnel) (ct : Option ClientTunnel) (msg m : TunnelMessage)
        → w.loops c ≡ reading_from t ct
        → response_of write_response msg ≡ some m
        → Step w (record w { goroutines = (ct, m) ∷ w.goroutines })
    -- any other round
    round :
        (draws : ℕ → ℕ → ℕ) (c : ℕ) (t : Tunnel) (ct : Option ClientTunnel)
        (received : Outcome TunnelMessage) (n : Next) (s : MmarServer)
        → w.loops c ≡ reading_from t ct
        → ((msg : TunnelMessage) → received ≡ ok msg → response_of write_response msg ≡ none)
        → process_message draws read_response write_response ct t received w.server ≡ running (n, s)
        → Step w (record w { server = s; loops = update w.loops c (stage_after t n) })
    heartbeat :
        (c : ℕ) (t : Tunnel) (ct : Option ClientTunnel) (s : MmarServer)
        → w.loops c ≡ reading_from t ct
        → send_heartbeat ct t w.server ≡ running s
        → Step w (record w { server = s })
    -- a goroutine that handles a response
    respond :
        (before after : List (Option ClientTunnel × TunnelMessage)) (ct : Option ClientTunnel)
        (m : TunnelMessage) (s : MmarServer)
        → w.goroutines ≡ before ++ (ct, m) ∷ after
        → handle_response_messages read_response ct m w.server ≡ running s
        → Step w (record w { server = s; goroutines = before ++ after })
    -- `ServeHTTP` for a host that has a client
    look_up :
        (k : ℕ) (r : Request) (writer : ResponseWriter) (ct : ClientTunnel)
        → w.handlers k ≡ fresh
        → (extract_subdomain r.host == codes "stats") ≡ false
        → lookup (extract_subdomain r.host) w.server.clients ≡ some ct
        → Step w (record w { handlers = update w.handlers k (preparing ct r writer) })
    -- its body has been read, or given up
    send :
        (draws : ℕ → ℕ) (fuel k : ℕ) (ct : ClientTunnel) (r : Request) (writer : ResponseWriter)
        (b : Begun) (s : MmarServer)
        → w.handlers k ≡ preparing ct r writer
        → with_request write_headers draws fuel ct k writer w.server
            (serialize_request write_headers r)
          ≡ (b, s)
        → Step w (record w { server = s; handlers = update w.handlers k (handler_after b) })
    -- the user goes away, before the request is sent or after
    abandon :
        (k : ℕ) (ct : ClientTunnel) (r : Request) (writer : ResponseWriter)
        → w.handlers k ≡ preparing ct r writer
        → Step w (record w { handlers = update w.handlers k unsent })
    give_up :
        (k : ℕ) (ct : ClientTunnel) (req_id : ℕ)
        → w.handlers k ≡ underway ct req_id
        → Step w (record w { server = cancel k context_canceled w.server })
    -- what the handler waits for is there
    end :
        (k : ℕ) (ct : ClientTunnel) (req_id : ℕ) (writer : ResponseWriter) (s : MmarServer)
        → w.handlers k ≡ underway ct req_id
        → finish ct req_id k w.server ≡ (some writer, s)
        → Step w (record w { server = s; handlers = update w.handlers k (ended ct req_id) })
    -- the network begins to refuse writes on a connection
    break :
        (c : ℕ) (e : Error)
        → Step w (record w {
          server = record w.server {
            conns = update w.server.conns c (record (w.server.conns c) { write_fails = some e });
          };
        })

  pub data Reach (w : World) : World → Type 0 where
    here : Reach w w
    next : {u v : World} → Reach w u → Step u v → Reach w v
