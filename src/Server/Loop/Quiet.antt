-- ===== src/Server/Loop/Quiet.antt =====
-- internal/server/main.go: a round of `processTunnelMessages` that hands nothing to a goroutine touches
-- no exchange.
use mmar.Http.{ServerResponse}
use mmar.Protocol.Types
use mmar.Prelude.Io.{Error, Outcome, ok, err, panic}
use mmar.Prelude.{ℕ, ◌≡◌, ◌∙◌, refl, [], Bytes, Option, none, some, arith, bytes_eq}
use mmar.Prelude.Maps.{lookup}
use mmar.Protocol.Conn.{Tunnel}
use mmar.Protocol.{TunnelMessage}
use mmar.Server.Loop.{
  Next, create, reclaim_if, reclaim, heartbeat_ack, dispatch, process_message, response_of,
  then_stop, after_creation, after_send, after_heartbeat, send_heartbeat, parse_tunnel_data,
}
use mmar.Server.Registry.Quiet.{new_client_tunnel-exchanges, close_or_conn-exchanges}
use mmar.Server.Registry.{Creation, created, refused, send_on, close_client_tunnel_or_conn}
use mmar.Server.Requests.{ParsedResponse}
use mmar.Server.State.{ClientTunnel, MmarServer, Running, running, crashed}

-- A round that ends leaves every exchange as it was.
abbrev Quiet : MmarServer → Running (Next × MmarServer) → Type 0
Quiet s r = (n : Next) (s' : MmarServer) → r ≡ running (n, s') → s'.exchanges ≡ s.exchanges

closed-Quiet :
    (ct : Option ClientTunnel) (t : Tunnel) (s : MmarServer)
    → Quiet s (then_stop (close_client_tunnel_or_conn ct t s))
closed-Quiet ct t s n s' h =
    after (close_client_tunnel_or_conn ct t s) (close_or_conn-exchanges ct t s) n s' h
  where
    after :
        (r : Running MmarServer)
        → ((q : MmarServer) → r ≡ running q → q.exchanges ≡ s.exchanges)
        → Quiet s (then_stop r)
    after crashed same n s' h = absurd (cc)
    after (running q) same n s' h = let this : q ≡ s' = cc in rw (← this) (same q refl)

after_creation-Quiet :
    (s : MmarServer) (r : Running (Creation × MmarServer))
    → ((c : Creation) (q : MmarServer) → r ≡ running (c, q) → q.exchanges ≡ s.exchanges)
    → Quiet s (after_creation r)
after_creation-Quiet s crashed same n s' h = absurd (cc)
after_creation-Quiet s (running (created ct, q)) same n s' h =
    let this : q ≡ s' = cc in rw (← this) (same (created ct) q refl)
after_creation-Quiet s (running (refused why, q)) same n s' h =
    let this : q ≡ s' = cc in rw (← this) (same (refused why) q refl)

after_send-Quiet :
    (s : MmarServer) (ct : Option ClientTunnel) (t : Tunnel) (r : Option Error × MmarServer)
    → r.1.exchanges ≡ s.exchanges
    → Quiet s (after_send ct t r)
after_send-Quiet s ct t (none, q) same n s' h = let this : q ≡ s' = cc in rw (← this) same
after_send-Quiet s ct t (some e, q) same n s' h = closed-Quiet ct t q n s' h ∙ same

pub send_heartbeat-exchanges :
    (ct : Option ClientTunnel) (t : Tunnel) (s s' : MmarServer)
    → send_heartbeat ct t s ≡ running s'
    → s'.exchanges ≡ s.exchanges
unfolding send_heartbeat send_on
send_heartbeat-exchanges ct t s s' h = after (send_on t.conn beat s) refl s' h
  where
    beat : TunnelMessage
    beat = record { msg_type = Types.heartbeat_from_server; msg_data = [] }

    after :
        (r : Option Error × MmarServer)
        → r.1.exchanges ≡ s.exchanges
        → (s' : MmarServer) → after_heartbeat ct t r ≡ running s'
        → s'.exchanges ≡ s.exchanges
    after (none, q) same s' h = let this : q ≡ s' = cc in rw (← this) same
    after (some e, q) same s' h = close_or_conn-exchanges ct t q s' h ∙ same

module _ (draws : ℕ → ℕ → ℕ) (read_response : ℕ → Bytes → ParsedResponse)
    (write_response : ServerResponse → Bytes) where
  create-Quiet :
      (t : Tunnel) (request : Bytes × Bytes) (s : MmarServer)
      → Quiet s (create draws read_response write_response t request s)
  unfolding create
  create-Quiet t (name, token) s =
      after_creation-Quiet s _ (new_client_tunnel-exchanges draws t name token s)

  reclaim_if-Quiet :
      (other ct : Option ClientTunnel) (t : Tunnel) (request : Bytes × Bytes) (s : MmarServer)
      → Quiet s (reclaim_if draws read_response write_response other ct t request s)
  unfolding reclaim_if
  reclaim_if-Quiet (some other) ct t request s = closed-Quiet ct t s
  reclaim_if-Quiet none ct t request s = create-Quiet t request s

  heartbeat_ack-Quiet :
      (ct : Option ClientTunnel) (t : Tunnel) (s : MmarServer)
      → Quiet s (heartbeat_ack draws read_response write_response ct t s)
  unfolding heartbeat_ack send_on
  heartbeat_ack-Quiet ct t s = after_send-Quiet s ct t _ refl

  dispatch-Quiet :
      (ct : Option ClientTunnel) (t : Tunnel) (msg : TunnelMessage) (s : MmarServer)
      → response_of write_response msg ≡ none
      → Quiet s (dispatch draws read_response write_response ct t msg s)
  unfolding dispatch reclaim response_of
  dispatch-Quiet ct t msg s rest n s' h = ground (
    arith,
    create-Quiet t (parse_tunnel_data msg.msg_data) s n s',
    reclaim_if-Quiet (lookup (parse_tunnel_data msg.msg_data).0 s.clients) ct t
        (parse_tunnel_data msg.msg_data) s n s',
    closed-Quiet ct t s n s',
    heartbeat_ack-Quiet ct t s n s',
    h,
    rest,
  )

  pub process_message-exchanges :
      (ct : Option ClientTunnel) (t : Tunnel) (received : Outcome TunnelMessage) (s : MmarServer)
      → ((msg : TunnelMessage) → received ≡ ok msg → response_of write_response msg ≡ none)
      → Quiet s (process_message draws read_response write_response ct t received s)
  unfolding process_message
  process_message-exchanges ct t panic s rest n s' h = absurd (cc)
  process_message-exchanges ct t (err e) s rest n s' h = ground (arith, closed-Quiet ct t s n s', h)
  process_message-exchanges ct t (ok msg) s rest n s' h =
      dispatch-Quiet ct t msg s (rest msg refl) n s' h
