-- ===== src/Server/Loop/Safety.antt =====
-- internal/server/main.go: what a round of the loop keeps, and when it must crash
-- the server.
use mathlib.Core.Path.{subst}
use mmar.Http.{ServerResponse}
use mmar.Prelude.Io.{Error, Outcome, ok, err, panic}
use mmar.Prelude.Maps.{lookup}
use mmar.Prelude.{ℕ, ◌≡◌, refl, true, Bytes, Option, none, some, bytes_eq, ◌⊎◌, inl, inr}
use mmar.Protocol.Conn.{Tunnel}
use mmar.Protocol.Types
use mmar.Protocol.{TunnelMessage}
use mmar.Server.Keeps.{
  Invariant, Holds, MayClose, if_both, Keeps, running-Keeps, close_or_conn-Keeps,
}
use mmar.Server.Loop.Cases.{dispatch_cases}
use mmar.Server.Loop.{
  Next, again, parse_tunnel_data, then_stop, then_again, after_creation, after_send, create,
  after_heartbeat, send_heartbeat, reclaim_if, reclaim, dispatch, process_message,
}
use mmar.Server.Registry.{Creation, created, refused, close_client_tunnel_or_conn, send_on}
use mmar.Server.Requests.Keeping.{handle_response-Keeps}
use mmar.Server.Requests.{ParsedResponse, handle_response_messages}
use mmar.Server.State.{ClientTunnel, MmarServer, Running, running, crashed}
use mmar.Utils.{network_error}

abbrev KeepsNext : Invariant → Running (Next × MmarServer) → Type 0
KeepsNext I r =
    (n : Next) (s' : MmarServer)
    → ◌≡◌ {A = Running (Next × MmarServer)} r (running (n, s'))
    → Holds I s'

running-KeepsNext :
    (I : Invariant) → {n : Next} {s : MmarServer} → Holds I s → KeepsNext I (running (n, s))
running-KeepsNext I {n} {s} capped m s' h = let e : s ≡ s' = cc in subst (Holds I) e capped

then_stop-Keeps : (I : Invariant) → (r : Running MmarServer) → Keeps I r → KeepsNext I (then_stop r)
then_stop-Keeps I crashed k = λ n s' h. absurd (cc)
then_stop-Keeps I (running s) k = running-KeepsNext I (k s refl)

then_again-Keeps :
    (I : Invariant)
    → (ct : Option ClientTunnel) (r : Running MmarServer) → Keeps I r
    → KeepsNext I (then_again ct r)
then_again-Keeps I ct crashed k = λ n s' h. absurd (cc)
then_again-Keeps I ct (running s) k = running-KeepsNext I (k s refl)

after_creation-Keeps :
    (I : Invariant)
    → (r : Running (Creation × MmarServer))
    → ((c : Creation) (s' : MmarServer)
        → ◌≡◌ {A = Running (Creation × MmarServer)} r (running (c, s'))
        → Holds I s')
    → KeepsNext I (after_creation r)
after_creation-Keeps I crashed k = λ n s' h. absurd (cc)
after_creation-Keeps I (running (created ct, s)) k = running-KeepsNext I (k (created ct) s refl)
after_creation-Keeps I (running (refused why, s)) k = running-KeepsNext I (k (refused why) s refl)

after_send-Keeps :
    (I : Invariant)
    → (ct : Option ClientTunnel) (t : Tunnel) (r : Option Error × MmarServer) → MayClose I ct
    → Holds I r.1
    → KeepsNext I (after_send ct t r)
after_send-Keeps I ct t (none, s) may capped = running-KeepsNext I capped
after_send-Keeps I ct t (some e, s) may capped =
    then_stop-Keeps I _ (close_or_conn-Keeps I ct t s may capped)

after_heartbeat-Keeps :
    (I : Invariant)
    → (ct : Option ClientTunnel) (t : Tunnel) (r : Option Error × MmarServer) → MayClose I ct
    → Holds I r.1
    → Keeps I (after_heartbeat ct t r)
after_heartbeat-Keeps I ct t (none, s) may capped = running-Keeps I capped
after_heartbeat-Keeps I ct t (some e, s) may capped = close_or_conn-Keeps I ct t s may capped

pub send_heartbeat-Keeps :
    (I : Invariant)
    → (ct : Option ClientTunnel) (t : Tunnel) (s : MmarServer) → MayClose I ct
    → Holds I s
    → Keeps I (send_heartbeat ct t s)
unfolding send_heartbeat send_on
send_heartbeat-Keeps I ct t s may capped = after_heartbeat-Keeps I ct t _ may capped

module _ (draws : ℕ → ℕ → ℕ) (read_response : ℕ → Bytes → ParsedResponse)
    (write_response : ServerResponse → Bytes) where
  create-Keeps :
      (I : Invariant)
      → (t : Tunnel) (request : Bytes × Bytes) (s : MmarServer) → Holds I s
      → KeepsNext I (create draws read_response write_response t request s)
  unfolding create
  create-Keeps I t (name, token) s capped =
      after_creation-Keeps I _ λ c s' h. I.made draws t name token s c s' capped h

  reclaim_if-Keeps :
      (I : Invariant)
      → (other ct : Option ClientTunnel) (t : Tunnel) (request : Bytes × Bytes) (s : MmarServer)
      → MayClose I ct
      → Holds I s
      → KeepsNext I (reclaim_if draws read_response write_response other ct t request s)
  unfolding reclaim_if
  reclaim_if-Keeps I (some other) ct t request s may capped =
      then_stop-Keeps I _ (close_or_conn-Keeps I ct t s may capped)
  reclaim_if-Keeps I none ct t request s may capped = create-Keeps I t request s capped

  dispatch-Keeps :
      (I : Invariant)
      → (ct : Option ClientTunnel) (t : Tunnel) (msg : TunnelMessage) (s : MmarServer)
      → MayClose I ct
      → Holds I s
      → KeepsNext I (dispatch draws read_response write_response ct t msg s)
  unfolding send_on
  dispatch-Keeps I ct t msg s may capped =
      dispatch_cases draws read_response write_response (KeepsNext I) ct t msg s
        (λ request. create-Keeps I t request s capped)
        (λ other request. reclaim_if-Keeps I other ct t request s may capped)
        (λ m. then_again-Keeps I ct _ (handle_response-Keeps read_response I ct m s may capped))
        (then_stop-Keeps I _ (close_or_conn-Keeps I ct t s may capped))
        (after_send-Keeps I ct t _ may capped) (running-KeepsNext I capped)

  -- Whatever a connection sends, and however it breaks, a round of its loop that does not crash the
  -- server keeps a property of the tables that the making of tunnels and the closing of its own keep.
  pub process_message-Keeps :
      (I : Invariant)
      → (ct : Option ClientTunnel) (t : Tunnel) (received : Outcome TunnelMessage) (s : MmarServer)
        (n : Next) (s' : MmarServer)
      → MayClose I ct
      → Holds I s
      → process_message draws read_response write_response ct t received s ≡ running (n, s')
      → Holds I s'
  unfolding process_message
  process_message-Keeps I ct t panic s n s' may capped h = absurd (cc)
  process_message-Keeps I ct t (err e) s n s' may capped h =
      if_both (KeepsNext I) (network_error e)
        (then_stop-Keeps I _ (close_or_conn-Keeps I ct t s may capped)) (running-KeepsNext I capped)
        n s' h
  process_message-Keeps I ct t (ok msg) s n s' may capped h =
      dispatch-Keeps I ct t msg s may capped n s' h

  -- A response that is handled lets the loop go on.
  pub process_message-response :
      (ct : Option ClientTunnel) (t : Tunnel) (data_read : Bytes) (s s' : MmarServer)
      → handle_response_messages read_response ct
          (record { msg_type = Types.response; msg_data = data_read })
          s
        ≡ running s'
      → process_message draws read_response write_response ct t
          (ok (record { msg_type = Types.response; msg_data = data_read }))
          s
        ≡ running (again ct, s')
  unfolding process_message dispatch
  process_message-response ct t data_read s s' h = rw h refl

  -- A connection that has no tunnel crashes the server when it breaks or is closed, when it takes
  -- its leave, when it sends a response, and when it reclaims a name that is in use.
  pub process_message_no_tunnel :
      (t : Tunnel) (received : Outcome TunnelMessage) (s : MmarServer)
      → ((e : Error) × (received ≡ err e) × (network_error e ≡ true))
        ⊎ ((m : TunnelMessage) × (received ≡ ok m)
            × ((m.msg_type ≡ Types.client_disconnect)
                ⊎ ((m.msg_type ≡ Types.response)
                    ⊎ ((m.msg_type ≡ Types.reclaim_tunnel)
                        × ((ct : ClientTunnel) × (lookup (parse_tunnel_data m.msg_data).0 s.clients
                              ≡ some ct))))))
      → process_message draws read_response write_response none t received s ≡ crashed
  unfolding process_message dispatch reclaim reclaim_if close_client_tunnel_or_conn
      handle_response_messages
  process_message_no_tunnel t received s (inl (e, was, gone)) = rw was (rw gone refl)
  process_message_no_tunnel t received s (inr (m, was, inl left)) = rw was (rw left refl)
  process_message_no_tunnel t received s (inr (m, was, inr (inl answers))) =
      rw was (rw answers refl)
  process_message_no_tunnel t received s (inr (m, was, inr (inr (asks, (ct, taken))))) =
      rw was (rw asks (rw taken refl))
