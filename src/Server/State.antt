-- ===== src/Server/State.antt =====
-- internal/server/main.go: the server's state. What the program shares by pointer
-- has a table of its own: connections, the in-flight requests and channels of a tunnel, and the
-- HTTP exchanges that wait for an answer. Each is a function from keys, changed at one key.
use mmar.Auth.{AuthManager}
use mmar.Http.{ResponseWriter}
use mmar.Prelude.Maps.{Map}
use mmar.Protocol.Conn.{Conn, Tunnel}
use mmar.Prelude.{ℕ, Bool, Bytes, List, Option, eqn, if◌then◌else◌}

pub record OutgoingResponse : Type 0 where
  pub status_code : ℕ
  pub body : Bytes

-- internal/server/utils.go, and `context.Canceled`: why a request was given up.
pub data Cause : Type 0 where
  context_canceled read_body_chunk_err read_body_chunk_timeout_err client_disconnected_err : Cause
  read_resp_body_err max_req_body_size_err failed_to_forward_to_mmar_client_err : Cause
  failed_to_read_resp_from_mmar_client_err : Cause

-- A request's context and its response channel, of which its handler takes what comes first.
pub data Progress : Type 0 where
  waiting : Progress
  answered : OutgoingResponse → Progress
  cancelled : Cause → Progress

-- An `IncomingRequest`, with the writer that its handler and the tunnel's share.
pub record Exchange : Type 0 where
  pub writer : ResponseWriter
  pub progress : Progress

-- What a tunnel's copies share: the requests in flight, by request id, each the key of its
-- exchange; and whether the two channels have been drained and closed.
pub record Shared : Type 0 where
  pub inflight : Map ℕ ℕ
  pub channels_closed : Bool

pub record ClientTunnel : Type 0 where
  pub tunnel : Tunnel
  pub open tunnel use *
  pub shared : ℕ
  pub auth_token : Bytes

pub record MmarServer : Type 0 where
  pub clients : Map Bytes ClientTunnel
  pub tunnels_per_ip : Map Bytes (List Bytes)
  pub auth_manager : Option AuthManager
  pub conns : ℕ → Conn
  pub shareds : ℕ → Shared
  pub next_shared : ℕ
  pub exchanges : ℕ → Exchange

abbrev pub update {ℓ} : {A : Type ℓ} → (ℕ → A) → ℕ → A → ℕ → A
update f k v j = if eqn k j then v else f j

-- A run-time panic in any goroutine ends the server.
pub data Running {ℓ} (A : Type ℓ) : Type ℓ where
  running : A → Running A
  crashed : Running A
