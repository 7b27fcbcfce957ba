-- ===== src/Server/Start.antt =====
-- internal/server/main.go: `Run`. Listening and the signal that ends the process are left out.
pub mod History
pub mod Registered
pub mod Process
pub mod Ending
use mmar.Auth.{ApiKeyConfig, AuthManager, new_auth_manager}
use mmar.Http.{fresh_writer}
use mmar.Prelude.{ℕ, false, Bytes, List, [], ◌∷◌, Option, none}
use mmar.Protocol.Conn.{Conn}
use mmar.Server.State.{waiting}
use mmar.Server.World.{World, unused, fresh}

pub record ConfigOptions : Type 0 where
  pub http_port : Bytes
  pub tcp_port : Bytes
  pub api_keys_file : Bytes

-- What reading and decoding the file of the keys gives is the first argument. An error is logged,
-- and the server starts without authentication.
unfoldable pub initial_auth_manager :
    (Bytes → Option (List ApiKeyConfig)) → Bytes → Option AuthManager
initial_auth_manager read_keys [] = none
initial_auth_manager read_keys (c ∷ file) = new_auth_manager (c ∷ file) (read_keys (c ∷ file))

-- The server that `Run` makes. The tables behind the pointers are empty: what they hold for a number
-- that is not in use yet is never read.
unfoldable pub run : (Bytes → Option (List ApiKeyConfig)) → (ℕ → Conn) → ConfigOptions → World
unfolding initial_auth_manager
run read_keys unmade config = record {
  server = record {
    clients = [];
    tunnels_per_ip = [];
    auth_manager = initial_auth_manager read_keys config.api_keys_file;
    conns = unmade;
    shareds = λ i. record { inflight = []; channels_closed = false };
    next_shared = 0;
    exchanges = λ k. record { writer = fresh_writer; progress = waiting };
  };
  loops = λ c. unused;
  handlers = λ k. fresh;
  goroutines = [];
}
