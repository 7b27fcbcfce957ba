-- ===== src/Server/Start/History.antt =====
-- internal/server/main.go: the histories of a server that `Run` has started.
use mmar.Http.{ServerResponse}
use mmar.Auth.{ApiKeyConfig}
use mmar.Prelude.Maps.{Map, lookup}
use mmar.Prelude.{ℕ, ◌≡◌, refl, Bytes, List, Option, some, arith, take, ◌⊎◌, bytes_eq}
use mmar.Constants.{request_id_buff_size}
use mmar.Protocol.Conn.{Conn}
use mmar.Protocol.{TunnelMessage}
use mmar.Server.Registry.Invariant.{IsCapped}
use mmar.Server.Keeps.{Holds}
use mmar.Server.Invariants.{capped, keyed}
use mmar.Server.Registry.Keyed.{HasKey, keys_of, HasKey-keys_of}
use mmar.Server.RequestId.{uint32}
use mmar.Server.Requests.{ParsedResponse, handle_response_messages}
use mmar.Server.Start.{ConfigOptions, initial_auth_manager, run}
use mmar.Server.Requests.Answering.{IsAnsweredWith}
use mmar.Server.World.Provenance.{Answer, Reach-Answer}
use mmar.Server.State.{OutgoingResponse, ClientTunnel, MmarServer, running}
use mmar.Server.World.Keeping.{Reach-Holds}
use mmar.Server.World.Routing.{Through, IsRouted, respond-own}
use mmar.Server.World.{World, Reach}

module _ (read_keys : Bytes → Option (List ApiKeyConfig)) (unmade : ℕ → Conn)
    (config : ConfigOptions) where
  initial-IsCapped : IsCapped (run read_keys unmade config).server
  unfolding run lookup
  initial-IsCapped ip = omega arith

  initial-keyed :
      Holds
        (keyed (keys_of (initial_auth_manager read_keys config.api_keys_file)))
        (run read_keys unmade config).server
  unfolding run lookup
  initial-keyed = ((λ id ct found. absurd (cc)), refl)

  run-IsRouted : IsRouted (run read_keys unmade config)
  unfolding run lookup
  run-IsRouted i req_id k e = absurd (cc)

  initially_unanswered :
      (j : ℕ) (resp : OutgoingResponse)
      → ¬ IsAnsweredWith (run read_keys unmade config).server j resp
  unfolding run
  initially_unanswered j resp a = absurd (cc)

  module _ (read_response : ℕ → Bytes → ParsedResponse) (write_response : ServerResponse → Bytes)
      (write_headers : Map Bytes (List Bytes) → Bytes) where
    -- Whatever happens to a server that `Run` has started, in any order of the steps of its
    -- goroutines: no address ever has more than five tunnels counted.
    pub run-IsCapped :
        {v : World}
        → Reach read_response write_response write_headers (run read_keys unmade config) v
        → IsCapped v.server
    run-IsCapped reach =
        Reach-Holds read_response write_response write_headers capped (λ ct. tt) reach
          initial-IsCapped

    -- Whatever happens to a server that `Run` has started, in any order of the steps of its
    -- goroutines: every client in its table has a token that is a key of the file that `Run` read,
    -- or no token where `Run` has no keys.
    pub run-HasKey :
        {v : World} (id : Bytes) (ct : ClientTunnel)
        → Reach read_response write_response write_headers (run read_keys unmade config) v
        → lookup id v.server.clients ≡ some ct
        → HasKey (initial_auth_manager read_keys config.api_keys_file) ct.auth_token
    run-HasKey {v} id ct reach found =
        let keys = keys_of (initial_auth_manager read_keys config.api_keys_file) in
        let (all, same) =
          Reach-Holds read_response write_response write_headers (keyed keys) (λ ct. tt) reach
            initial-keyed in
        HasKey-keys_of v.server.auth_manager (initial_auth_manager read_keys config.api_keys_file)
          ct.auth_token same (all id ct found)

    -- Whatever happened before to a server that `Run` has started, in any order of the steps of its
    -- goroutines: a response that comes over a tunnel changes the exchange of a request only if
    -- that request was sent through that tunnel, under the id in front of the response.
    pub run_respond-own :
        {v : World} (ct : ClientTunnel) (m : TunnelMessage) (s : MmarServer) (k : ℕ)
        → Reach read_response write_response write_headers (run read_keys unmade config) v
        → handle_response_messages read_response (some ct) m v.server ≡ running s
        → (s.exchanges k ≡ v.server.exchanges k)
          ⊎ Through (v.handlers k) ct.shared (uint32 (take request_id_buff_size m.msg_data))
    run_respond-own ct m s k reach h =
        respond-own read_response write_response write_headers ct m s k run-IsRouted reach h

    -- Whatever happened to a server that `Run` has started, in any order of the steps of its
    -- goroutines: a request that has an answer was sent through some tunnel, under some id, and the
    -- answer is what a response says that came over that tunnel with that id in front.
    pub run-Answer :
        {v : World} (k : ℕ) (resp : OutgoingResponse)
        (reach : Reach read_response write_response write_headers (run read_keys unmade config) v)
        → IsAnsweredWith v.server k resp
        → Answer read_response write_response write_headers reach k resp
    run-Answer k resp reach a =
        Reach-Answer read_response write_response write_headers k resp reach run-IsRouted
          initially_unanswered a
