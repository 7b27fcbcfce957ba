-- ===== src/Server/Start/Process.antt =====
-- internal/server/main.go: `Run` as a process. Its two goroutines listen for TCP connections and for HTTP
-- requests; an interrupt ends it, and so do a failure to listen for connections and a panic of any
-- goroutine. What is logged is left out.
use mmar.Http.{ServerResponse}
use mmar.Auth.{ApiKeyConfig}
use mmar.Prelude.Io.{Outcome}
use mmar.Prelude.Maps.{Map}
use mmar.Prelude.{ℕ, ◌≡◌, Bytes, List, Option, none, some, ◌++◌, ◌∷◌}
use mmar.Protocol.Conn.{Conn, Tunnel}
use mmar.Protocol.{TunnelMessage}
use mmar.Server.Loop.{process_message, send_heartbeat}
use mmar.Server.Requests.{ParsedResponse, handle_response_messages}
use mmar.Server.Start.{ConfigOptions, run}
use mmar.Server.State.{ClientTunnel, crashed}
use mmar.Server.World.{
  World, Handler, fresh, Stage, unused, reading_from, Reach, here, next, accept, spawn, round,
  heartbeat, respond, look_up, send, abandon, give_up, end, break,
}
use mmar.Server.World

-- A goroutine that listens: not there yet, serving, or returned.
pub data Listener : Type 0 where
  starting serving gone : Listener

-- How the process ended: by an interrupt, by `log.Fatalf`, by a panic.
pub data Exit : Type 0 where
  interrupted fatal panicked : Exit

pub record Process : Type 0 where
  pub world : World
  pub tcp : Listener
  pub http : Listener
  pub exit : Option Exit

unfoldable pub start : (Bytes → Option (List ApiKeyConfig)) → (ℕ → Conn) → ConfigOptions → Process
start read_keys unmade config = record {
  world = run read_keys unmade config;
  tcp = starting;
  http = starting;
  exit = none;
}

module _ (read_response : ℕ → Bytes → ParsedResponse) (write_response : ServerResponse → Bytes)
    (write_headers : Map Bytes (List Bytes) → Bytes) where
  -- A connection is accepted by the one listener, a request comes in by the other.
  abbrev Served :
      {w v : World} → Process → World.Step read_response write_response write_headers w v → Type 0
  Served p (accept c created_on conn free) = p.tcp ≡ serving
  Served p (spawn c t ct msg m reads hands) = Unit
  Served p (round draws c t ct received n s reads rest h) = Unit
  Served p (heartbeat c t ct s reads h) = Unit
  Served p (respond before after ct m s waits h) = Unit
  Served p (look_up k req writer ct new host known) = p.http ≡ serving
  Served p (send draws fuel k ct req writer b s ready h) = Unit
  Served p (abandon k ct req writer ready) = Unit
  Served p (give_up k ct req_id waits) = Unit
  Served p (end k ct req_id writer s waits h) = Unit
  Served p (break c e) = Unit

  -- A goroutine of the server panics.
  pub data Panics (w : World) : Type 0 where
    round_panics :
        (draws : ℕ → ℕ → ℕ) (c : ℕ) (t : Tunnel) (ct : Option ClientTunnel)
        (received : Outcome TunnelMessage)
        → w.loops c ≡ reading_from t ct
        → process_message draws read_response write_response ct t received w.server ≡ crashed
        → Panics w
    heartbeat_panics :
        (c : ℕ) (t : Tunnel) (ct : Option ClientTunnel)
        → w.loops c ≡ reading_from t ct
        → send_heartbeat ct t w.server ≡ crashed
        → Panics w
    response_panics :
        (before after : List (Option ClientTunnel × TunnelMessage)) (ct : Option ClientTunnel)
        (m : TunnelMessage)
        → w.goroutines ≡ before ++ (ct, m) ∷ after
        → handle_response_messages read_response ct m w.server ≡ crashed
        → Panics w

  pub data Step (p : Process) : Process → Type 0 where
    -- `net.Listen`, which the process does not survive when it fails
    listens : p.exit ≡ none → p.tcp ≡ starting → Step p (record p { tcp = serving })
    listen_fails : p.exit ≡ none → p.tcp ≡ starting → Step p (record p { exit = some fatal })
    -- `http.ListenAndServe`, which is only reported when it fails
    http_listens : p.exit ≡ none → p.http ≡ starting → Step p (record p { http = serving })
    http_returns : p.exit ≡ none → Step p (record p { http = gone })
    works :
        {v : World} (step : World.Step read_response write_response write_headers p.world v)
        → p.exit ≡ none
        → Served p step
        → Step p (record p { world = v })
    interrupt : p.exit ≡ none → Step p (record p { exit = some interrupted })
    panic : p.exit ≡ none → Panics p.world → Step p (record p { exit = some panicked })

  pub data Lives (p : Process) : Process → Type 0 where
    begins : Lives p p
    goes_on : {q r : Process} → Lives p q → Step q r → Lives p r

  -- What a process does to the server is a history of the server.
  pub Lives-Reach :
      {p q : Process} → Lives p q → Reach read_response write_response write_headers p.world q.world
  Lives-Reach begins = here
  Lives-Reach (goes_on run (listens up new)) = Lives-Reach run
  Lives-Reach (goes_on run (listen_fails up new)) = Lives-Reach run
  Lives-Reach (goes_on run (http_listens up new)) = Lives-Reach run
  Lives-Reach (goes_on run (http_returns up)) = Lives-Reach run
  Lives-Reach (goes_on run (works step up served)) = next (Lives-Reach run) step
  Lives-Reach (goes_on run (interrupt up)) = Lives-Reach run
  Lives-Reach (goes_on run (panic up how)) = Lives-Reach run
