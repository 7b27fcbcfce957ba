-- ===== src/Tests/Samples.antt =====
-- A small server: one tunnel `abc` over the connection 0, with the channels 0.
use mmar.Http.{fresh_writer}
use mmar.Prelude.{ℕ, codes, [], ◌∷◌, none, false}
use mmar.Protocol.Conn.{Conn, Tunnel}
use mmar.Server.Registry.{Creation}
use mmar.Server.State.{ClientTunnel, MmarServer, Running, running, crashed, waiting}

abbrev pub conn : Conn
conn = record {
  remote_addr = codes "1.2.3.4:5";
  written = [];
  write_fails = none;
  write_closed = false;
  closed = false;
}

-- The tunnel of a connection that has no client yet.
abbrev pub unnamed : Tunnel
unnamed = record { id = []; conn = 0; created_on = 7 }

abbrev pub client_abc : ClientTunnel
client_abc = record { tunnel = record unnamed { id = codes "abc" }; shared = 0; auth_token = [] }

abbrev pub empty_server : MmarServer
empty_server = record {
  clients = [];
  tunnels_per_ip = [];
  auth_manager = none;
  conns = λ c. conn;
  shareds = λ c. record { inflight = []; channels_closed = false };
  next_shared = 1;
  exchanges = λ k. record { writer = fresh_writer; progress = waiting };
}

abbrev pub serving : MmarServer
serving = record empty_server {
  clients = (codes "abc", client_abc) ∷ [];
  tunnels_per_ip = (codes "1.2.3.4", codes "abc" ∷ []) ∷ [];
}

-- Every draw is 0: the name `aaaaaa`.
abbrev pub zeros : ℕ → ℕ → ℕ
zeros i j = 0

abbrev pub server_after : Running MmarServer → MmarServer
server_after (running s) = s
server_after crashed = empty_server

abbrev pub server_made : Running (Creation × MmarServer) → MmarServer
server_made (running (c, s)) = s
server_made crashed = empty_server
