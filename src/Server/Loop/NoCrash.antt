-- ===== src/Server/Loop/NoCrash.antt =====
-- internal/server/main.go: rounds of the loop that cannot crash the server.
use mmar.Http.{ServerResponse}
use mmar.Prelude.Io.{Error, Outcome, ok, err, panic}
use mmar.Prelude.{[], ℕ, ◌≢◌, refl, Bytes, Option, none, some, bytes_eq}
use mmar.Protocol.Conn.{Tunnel}
use mmar.Protocol.Types
use mmar.Protocol.{TunnelMessage}
use mmar.Server.Keeps.{if_both, Runs, HasChannels, close_or_conn-Runs}
use mmar.Server.Loop.Cases.{dispatch_cases}
use mmar.Server.Loop.{
  then_stop, then_again, after_creation, after_send, create, after_heartbeat, send_heartbeat,
  reclaim_if, process_message,
}
use mmar.Server.Registry.{Creation, created, refused, new_client_tunnel, send_on}
use mmar.Server.Registry.Spec.{unchanged, recorded, new_client_tunnel-Made}
use mmar.Server.Requests.Keeping.{handle_response-Runs}
use mmar.Server.Requests.{ParsedResponse}
use mmar.Server.State.{ClientTunnel, MmarServer, Running, running, crashed}
use mmar.Utils.{network_error}

after_creation-Runs : (r : Running (Creation × MmarServer)) → Runs r → Runs (after_creation r)
after_creation-Runs crashed (a, e) = absurd (cc)
after_creation-Runs (running (created ct, s)) h = (_, refl)
after_creation-Runs (running (refused why, s)) h = (_, refl)

then_stop-Runs : (r : Running MmarServer) → Runs r → Runs (then_stop r)
then_stop-Runs crashed (a, e) = absurd (cc)
then_stop-Runs (running s) h = (_, refl)

then_again-Runs :
    (ct : Option ClientTunnel) (r : Running MmarServer) → Runs r → Runs (then_again ct r)
then_again-Runs ct crashed (a, e) = absurd (cc)
then_again-Runs ct (running s) h = (_, refl)

after_send-Runs :
    (ct : ClientTunnel) (t : Tunnel) (r : Option Error × MmarServer)
    → HasChannels ct r.1
    → Runs (after_send (some ct) t r)
after_send-Runs ct t (none, s) o = (_, refl)
after_send-Runs ct t (some e, s) o = then_stop-Runs _ (close_or_conn-Runs ct t s o)

-- A heartbeat crashes nothing while the tunnel's channels are open.
pub send_heartbeat-Runs :
    (ct : ClientTunnel) (t : Tunnel) (s : MmarServer)
    → HasChannels ct s
    → Runs (send_heartbeat (some ct) t s)
unfolding send_heartbeat send_on
send_heartbeat-Runs ct t s o = after (send_on t.conn beat s) o
  where
    beat : TunnelMessage
    beat = record { msg_type = Types.heartbeat_from_server; msg_data = [] }

    after :
        (r : Option Error × MmarServer) → HasChannels ct r.1 → Runs (after_heartbeat (some ct) t r)
    after (none, q) o = (q, refl)
    after (some e, q) o = close_or_conn-Runs ct t q o

new_client_tunnel-Runs :
    (draws : ℕ → ℕ → ℕ) (t : Tunnel) (name token : Bytes) (s : MmarServer)
    → Runs (new_client_tunnel draws t name token s)
new_client_tunnel-Runs draws t name token s = elim (new_client_tunnel-Made draws t name token s) [
  | unchanged why s' e _ _ ↦ ((refused why, s'), e)
  | recorded ct c s' e _ _ _ _ _ _ _ ↦ ((c, s'), e)
]

module _ (draws : ℕ → ℕ → ℕ) (read_response : ℕ → Bytes → ParsedResponse)
    (write_response : ServerResponse → Bytes) where
  create-Runs :
      (t : Tunnel) (request : Bytes × Bytes) (s : MmarServer)
      → Runs (create draws read_response write_response t request s)
  unfolding create
  create-Runs t (name, token) s =
      after_creation-Runs _ (new_client_tunnel-Runs draws t name token s)

  reclaim_if-Runs :
      (other : Option ClientTunnel) (ct : ClientTunnel) (t : Tunnel) (request : Bytes × Bytes)
      (s : MmarServer)
      → HasChannels ct s
      → Runs (reclaim_if draws read_response write_response other (some ct) t request s)
  unfolding reclaim_if
  reclaim_if-Runs (some other) ct t request s o = then_stop-Runs _ (close_or_conn-Runs ct t s o)
  reclaim_if-Runs none ct t request s o = create-Runs t request s

  -- A connection whose tunnel's channels are open crashes the server by no message and by no error,
  -- unless reading the message crashes it.
  pub process_message-Runs :
      (ct : ClientTunnel) (t : Tunnel) (received : Outcome TunnelMessage) (s : MmarServer)
      → HasChannels ct s
      → received ≢ panic
      → Runs (process_message draws read_response write_response (some ct) t received s)
  unfolding process_message send_on
  process_message-Runs ct t panic s o fine = absurd (fine refl)
  process_message-Runs ct t (err e) s o fine =
      if_both Runs (network_error e) (then_stop-Runs _ (close_or_conn-Runs ct t s o)) (_, refl)
  process_message-Runs ct t (ok msg) s o fine =
      dispatch_cases draws read_response write_response Runs (some ct) t msg s
        (λ request. create-Runs t request s)
        (λ other request. reclaim_if-Runs other ct t request s o)
        (λ m. then_again-Runs (some ct) _ (handle_response-Runs read_response ct m s o))
        (then_stop-Runs _ (close_or_conn-Runs ct t s o)) (after_send-Runs ct t _ o) (_, refl)
