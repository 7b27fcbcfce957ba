-- ===== src/Server/Loop/Frames.antt =====
-- internal/server/main.go: a round of `processTunnelMessages` starts no request.
use mmar.Http.{ServerResponse}
use mmar.Prelude.Io.{Error, Outcome, ok, err, panic}
use mmar.Prelude.{ℕ, refl, Bytes, [], Option, none, some}
use mmar.Protocol.Conn.{Tunnel}
use mmar.Protocol.Types
use mmar.Protocol.{TunnelMessage}
use mmar.Server.Frame.{Frame, Frame-refl, Frames, Frames-trans, running-Frames}
use mmar.Server.Keeps.{if_both}
use mmar.Server.Loop.Cases.{dispatch_cases}
use mmar.Server.Loop.{
  create, reclaim_if, process_message, then_stop, then_again, after_creation, after_send,
  after_heartbeat, send_heartbeat,
}
use mmar.Server.Registry.Frames.{
  FramesBoth, FramesBoth-running, send_on-Frame, close_or_conn-Frames, new_client_tunnel-Frames,
}
use mmar.Server.Registry.{Creation, created, refused, send_on}
use mmar.Server.Requests.Frames.{handle_response-Frames}
use mmar.Server.Requests.{ParsedResponse}
use mmar.Server.State.{ClientTunnel, MmarServer, Running, running, crashed}

then_stop-Frames :
    (s : MmarServer) (r : Running MmarServer) → Frames s r → FramesBoth s (then_stop r)
then_stop-Frames s (running q) f = FramesBoth-running (f q refl)
then_stop-Frames s crashed f = λ n u h. cc

then_again-Frames :
    (s : MmarServer) (ct : Option ClientTunnel) (r : Running MmarServer)
    → Frames s r
    → FramesBoth s (then_again ct r)
then_again-Frames s ct (running q) f = FramesBoth-running (f q refl)
then_again-Frames s ct crashed f = λ n u h. cc

after_creation-Frames :
    (s : MmarServer) (r : Running (Creation × MmarServer))
    → FramesBoth s r
    → FramesBoth s (after_creation r)
after_creation-Frames s crashed f = λ n u h. cc
after_creation-Frames s (running (created ct, q)) f = FramesBoth-running (f (created ct) q refl)
after_creation-Frames s (running (refused why, q)) f = FramesBoth-running (f (refused why) q refl)

after_send-Frames :
    (s : MmarServer) (ct : Option ClientTunnel) (t : Tunnel) (r : Option Error × MmarServer)
    → Frame s r.1
    → FramesBoth s (after_send ct t r)
after_send-Frames s ct t (none, q) f = FramesBoth-running f
after_send-Frames s ct t (some e, q) f =
    then_stop-Frames s _ (Frames-trans f (close_or_conn-Frames ct t q))

pub send_heartbeat-Frames :
    (ct : Option ClientTunnel) (t : Tunnel) (s : MmarServer) → Frames s (send_heartbeat ct t s)
unfolding send_heartbeat
send_heartbeat-Frames ct t s = after (send_on t.conn beat s) (send_on-Frame t.conn beat s)
  where
    beat : TunnelMessage
    beat = record { msg_type = Types.heartbeat_from_server; msg_data = [] }

    after : (r : Option Error × MmarServer) → Frame s r.1 → Frames s (after_heartbeat ct t r)
    after (none, q) f = running-Frames f
    after (some e, q) f = Frames-trans f (close_or_conn-Frames ct t q)

module _ (draws : ℕ → ℕ → ℕ) (read_response : ℕ → Bytes → ParsedResponse)
    (write_response : ServerResponse → Bytes) where
  create-Frames :
      (t : Tunnel) (request : Bytes × Bytes) (s : MmarServer)
      → FramesBoth s (create draws read_response write_response t request s)
  unfolding create
  create-Frames t (name, token) s =
      after_creation-Frames s _ (new_client_tunnel-Frames draws t name token s)

  reclaim_if-Frames :
      (other ct : Option ClientTunnel) (t : Tunnel) (request : Bytes × Bytes) (s : MmarServer)
      → FramesBoth s (reclaim_if draws read_response write_response other ct t request s)
  unfolding reclaim_if
  reclaim_if-Frames (some other) ct t request s = then_stop-Frames s _ (close_or_conn-Frames ct t s)
  reclaim_if-Frames none ct t request s = create-Frames t request s

  pub process_message-Frames :
      (ct : Option ClientTunnel) (t : Tunnel) (received : Outcome TunnelMessage) (s : MmarServer)
      → FramesBoth s (process_message draws read_response write_response ct t received s)
  unfolding process_message
  process_message-Frames ct t panic s = λ n u h. cc
  process_message-Frames ct t (err e) s =
      if_both (FramesBoth s) _ (then_stop-Frames s _ (close_or_conn-Frames ct t s))
        (FramesBoth-running (Frame-refl s))
  process_message-Frames ct t (ok msg) s =
      dispatch_cases draws read_response write_response (FramesBoth s) ct t msg s
        (λ request. create-Frames t request s)
        (λ other request. reclaim_if-Frames other ct t request s)
        (λ m. then_again-Frames s ct _ (handle_response-Frames read_response ct m s))
        (then_stop-Frames s _ (close_or_conn-Frames ct t s))
        (after_send-Frames s ct t _ (send_on-Frame t.conn _ s)) (FramesBoth-running (Frame-refl s))
