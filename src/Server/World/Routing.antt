-- ===== src/Server/World/Routing.antt =====
-- internal/server/main.go: over any history of the server, every id in flight belongs to the request
-- that was sent under it, and a response reaches no other.
use mathlib.Core.Path.{subst}
use mmar.Http.{ServerResponse}
use mmar.Constants.{request_id_buff_size}
use mmar.Prelude.Maps.{Map, lookup}
use mmar.Prelude.{ℕ, ◌≡◌, Bytes, List, some, arith, eqn, nat_eq, take, ◌⊎◌, inl, inr, Bool-cases}
use mmar.Protocol.{TunnelMessage}
use mmar.Server.Frame.{Frame, cancel-Frame}
use mmar.Server.Loop.Frames.{process_message-Frames, send_heartbeat-Frames}
use mmar.Server.RequestId.{uint32}
use mmar.Server.Requests.Frames.{
  Started, with_request-Started, handle_response-Frames, handle_response-own, finish-Frame,
}
use mmar.Server.Requests.{Begun, ParsedResponse, handle_response_messages}
use mmar.Server.Serialize.{serialize_request}
use mmar.Server.State.{context_canceled, ClientTunnel, MmarServer, update, running}
use mmar.Server.World.{
  World, Handler, fresh, preparing, underway, ended, unsent, handler_after, Step, accept, spawn,
  round, heartbeat, respond, look_up, send, abandon, give_up, end, break, Reach, here, next,
}

-- A handler has sent its request through the tunnel with these channels, under this id.
abbrev pub Through : Handler → ℕ → ℕ → Type 0
Through (underway ct id) i req_id = (ct.shared ≡ i) × (id ≡ req_id)
Through (ended ct id) i req_id = (ct.shared ≡ i) × (id ≡ req_id)
Through fresh i req_id = ⊥
Through (preparing ct r writer) i req_id = ⊥
Through unsent i req_id = ⊥

abbrev pub Routed : MmarServer → (ℕ → Handler) → Type 0
Routed s handlers =
    (i req_id k : ℕ) → lookup req_id (s.shareds i).inflight ≡ some k → Through (handlers k) i req_id

-- Every id in flight was given to the request that has it, by the tunnel that has it in flight.
abbrev pub IsRouted : World → Type 0
IsRouted w = Routed w.server w.handlers

Routed-Frame : {s s' : MmarServer} (h : ℕ → Handler) → Frame s s' → Routed s h → Routed s' h
Routed-Frame h f r i req_id k e = r i req_id k (f.fewer i req_id k e)

-- A handler that goes on keeps what it has sent.
Routed-update :
    (s : MmarServer) (h : ℕ → Handler) (k : ℕ) (new : Handler)
    → ((i req_id : ℕ) → Through (h k) i req_id → Through new i req_id)
    → Routed s h
    → Routed s (update h k new)
Routed-update s h k new keeps r i req_id j e = elim (Bool-cases (eqn k j)) [
  | inl same ↦
      let there : k ≡ j = ground (arith, same) in
      rw same (keeps i req_id (rw there (r i req_id j e)))
  | inr other ↦ rw other (r i req_id j e)
]

Routed-Started :
    (s : MmarServer) (h : ℕ → Handler) (ct : ClientTunnel) (k : ℕ) (b : Begun) (s' : MmarServer)
    → ((i req_id : ℕ) → ¬ Through (h k) i req_id)
    → Started ct k s (b, s')
    → Routed s h
    → Routed s' (update h k (handler_after b))
Routed-Started s h ct k b s' none_yet (inl (quiet, same)) r i id j e =
    Routed-update s h k (handler_after b) (λ i req_id t. absurd (none_yet i req_id t)) r i id j
      (rw (← same) e)
Routed-Started s h ct k b s' none_yet (inr (req_id, begun, o)) r i id j e =
    elim (o.entered i id j e) [
      | inl old ↦ elim (Bool-cases (eqn k j)) [
        | inl same ↦
            let there : k ≡ j = ground (arith, same) in
            absurd (none_yet i id (rw there (r i id j old)))
        | inr other ↦ rw other (r i id j old)
      ]
      | inr (here_, this, mine) ↦ rw (begun, mine) (ground (arith, here_, this))
    ]

module _ (read_response : ℕ → Bytes → ParsedResponse) (write_response : ServerResponse → Bytes)
    (write_headers : Map Bytes (List Bytes) → Bytes) where
  Step-IsRouted :
      {w v : World} → Step read_response write_response write_headers w v → IsRouted w → IsRouted v
  Step-IsRouted (accept c created_on conn free) r = r
  Step-IsRouted (spawn c t ct msg m reads hands) r = r
  Step-IsRouted {w} (round draws c t ct received n s reads rest h) r =
      Routed-Frame w.handlers
        (process_message-Frames draws read_response write_response ct t received w.server n s h) r
  Step-IsRouted {w} (heartbeat c t ct s reads h) r =
      Routed-Frame w.handlers (send_heartbeat-Frames ct t w.server s h) r
  Step-IsRouted {w} (respond before after ct m s waits h) r =
      Routed-Frame w.handlers (handle_response-Frames read_response ct m w.server s h) r
  Step-IsRouted {w} (look_up k req writer ct new host known) r =
      Routed-update w.server w.handlers k (preparing ct req writer) (λ i req_id t. rw new at t) r
  Step-IsRouted {w} (send draws fuel k ct req writer b s ready h) r =
      Routed-Started w.server w.handlers ct k b s (λ i req_id t. rw ready at t)
        (subst (Started ct k w.server) h (
          with_request-Started write_headers draws fuel ct k writer w.server
            (serialize_request write_headers req)))
        r
  Step-IsRouted {w} (abandon k ct req writer ready) r =
      Routed-update w.server w.handlers k unsent (λ i req_id t. absurd (rw ready at t)) r
  Step-IsRouted {w} (give_up k ct req_id waits) r =
      Routed-Frame w.handlers (cancel-Frame k context_canceled w.server) r
  Step-IsRouted {w} (end k ct req_id writer s waits h) r =
      Routed-update s w.handlers k (ended ct req_id) (λ i id t. rw waits at t)
        (Routed-Frame w.handlers
          (subst (λ p. Frame w.server p.1) h (finish-Frame ct req_id k w.server)) r)
  Step-IsRouted (break c e) r = r

  pub Reach-IsRouted :
      {w v : World} → Reach read_response write_response write_headers w v → IsRouted w → IsRouted v
  Reach-IsRouted here r = r
  Reach-IsRouted (next reach step) r = Step-IsRouted step (Reach-IsRouted reach r)

  -- Over any history from a server with no request in flight, in any order of the steps of its
  -- goroutines: a response that came over a tunnel changes the exchange of a request only if that
  -- request was sent through that tunnel, under the id in front of the response.
  pub respond-own :
      {w v : World} (ct : ClientTunnel) (m : TunnelMessage) (s : MmarServer) (k : ℕ)
      → IsRouted w
      → Reach read_response write_response write_headers w v
      → handle_response_messages read_response (some ct) m v.server ≡ running s
      → (s.exchanges k ≡ v.server.exchanges k)
        ⊎ Through (v.handlers k) ct.shared (uint32 (take request_id_buff_size m.msg_data))
  respond-own {w} {v} ct m s k r reach h =
      elim (handle_response-own read_response ct m v.server s k h) [
        | inl same ↦ inl same
        | inr found ↦ inr (Reach-IsRouted reach r ct.shared _ k found)
      ]
