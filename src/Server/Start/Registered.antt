-- ===== src/Server/Start/Registered.antt =====
-- internal/server/main.go: who is registered over the histories of a server that `Run` has started.
use mmar.Http.{ServerResponse}
use mmar.Auth.{ApiKeyConfig, new_auth_manager, load_api_keys}
use mmar.Prelude.Decimal.{ℤ}
use mmar.Prelude.Maps.{Map, lookup}
use mmar.Prelude.{
  ℕ, ◌≡◌, refl, sym, ◌∙◌, Bytes, List, [], ◌∷◌, Option, some, bytes_eq, inl, inr, Option-cases,
}
use mmar.Protocol.Conn.{Conn}
use mmar.Server.Abstract.Promises.{IsProper, Reached-IsProper}
use mmar.Server.Abstract.Refining.{Refines, refining, initially-Represents}
use mmar.Server.Abstract.Holding.{held_under}
use mmar.Server.Abstract.{nothing_open, initially}
use mmar.Server.Keeps.{Holds}
use mmar.Server.Registry.Keyed.{keys_of}
use mmar.Server.Requests.{ParsedResponse}
use mmar.Server.Start.{ConfigOptions, initial_auth_manager, run}
use mmar.Server.State.{ClientTunnel}
use mmar.Server.World.Keeping.{Reach-Holds}
use mmar.Server.World.{World, Reach}

module _ (read_keys : Bytes → Option (List ApiKeyConfig)) where
  -- The keys that `Run` starts with.
  abbrev pub initial_keys : ConfigOptions → Option (Map Bytes ℤ)
  initial_keys config = keys_of (initial_auth_manager read_keys config.api_keys_file)

  initially_unheld :
      (file token : Bytes) → held_under (initial_auth_manager read_keys file) token ≡ []
  unfolding initial_auth_manager new_auth_manager load_api_keys lookup
  initially_unheld [] token = refl
  initially_unheld (c ∷ file) token = elim (Option-cases (read_keys (c ∷ file))) [
    | inl unread ↦ rw unread refl
    | inr (config, e) ↦ rw e refl
  ]

  module _ (unmade : ℕ → Conn) (config : ConfigOptions) where
    initial-refining : Holds (refining (initial_keys config)) (run read_keys unmade config).server
    unfolding run
    initial-refining = (
      refl,
      (nothing_open, initially, initially-Represents _ (initially_unheld config.api_keys_file)),
    )

    module _ (read_response : ℕ → Bytes → ParsedResponse) (write_response : ServerResponse → Bytes)
        (write_headers : Map Bytes (List Bytes) → Bytes) where
      pub run-Refines :
          {v : World}
          → Reach read_response write_response write_headers (run read_keys unmade config) v
          → Refines
              (initial_keys config)
              v.server.clients
              v.server.tunnels_per_ip
              v.server.auth_manager
      run-Refines reach =
          (Reach-Holds read_response write_response write_headers (refining (initial_keys config))
            (λ ct. tt) reach initial-refining).1

      -- Whatever happens to a server that `Run` has started, in any order of the steps of its
      -- goroutines: a client in its table stands under its own name, that name is a valid one or
      -- has the length of the names that are drawn, and its token is a key of the file, or empty
      -- where there are no keys.
      pub run-IsProper :
          {v : World} (id : Bytes) (ct : ClientTunnel)
          → Reach read_response write_response write_headers (run read_keys unmade config) v
          → lookup id v.server.clients ≡ some ct
          → IsProper (initial_keys config) id ct
      run-IsProper id ct reach found =
          let (r, reached, says) = run-Refines reach in
          Reached-IsProper id ct reached (sym (says.owner id) ∙ found)
