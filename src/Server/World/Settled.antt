-- ===== src/Server/World/Settled.antt =====
-- internal/server/main.go: over any history of the server, a request that has been sent stays the
-- request of its tunnel under its id, and what has become of it stays.
use mathlib.Core.Path.{subst}
use mmar.Http.{ServerResponse}
use mmar.Prelude.Maps.{Map}
use mmar.Prelude.{ℕ, ◌≡◌, ◌≢◌, refl, Bytes, List, arith, eqn, nat_eq, inl, inr, Bool-cases}
use mmar.Server.Frame.{Advances, Advances-trans, Frame, cancel-Frame}
use mmar.Server.Loop.Frames.{process_message-Frames, send_heartbeat-Frames}
use mmar.Server.Requests.Frames.{
  Started, with_request-Started, handle_response-Frames, finish-Frame,
}
use mmar.Server.Requests.{Begun, ParsedResponse}
use mmar.Server.Serialize.{serialize_request}
use mmar.Server.State.{context_canceled, waiting, ClientTunnel, MmarServer, update}
use mmar.Server.World.Routing.{Through}
use mmar.Server.World.{
  World, Handler, unsent, ended, Step, accept, spawn, round, heartbeat, respond, look_up, send,
  abandon, give_up, end, break, Reach, here, next,
}

-- The request of a handler goes on: sent as it was, and settled as it was if it was settled.
pub record Goes (k i req_id : ℕ) (w v : World) : Type 0 where
  pub sent_as : Through (v.handlers k) i req_id
  pub advances : Advances (w.server.exchanges k).progress (v.server.exchanges k).progress

-- No step changes a handler that has sent its request but its own, which keeps what it sent.
kept :
    (h : ℕ → Handler) (j k i req_id : ℕ) (new : Handler)
    → (Through (h j) i req_id → Through new i req_id)
    → Through (h k) i req_id
    → Through (update h j new k) i req_id
kept h j k i req_id new keeps t = elim (Bool-cases (eqn j k)) [
  | inl same ↦ let there : j ≡ k = ground (arith, same) in rw same (keeps (rw there t))
  | inr other ↦ rw other t
]

Started-Advances :
    (ct : ClientTunnel) (j k : ℕ) (s s' : MmarServer) (b : Begun)
    → k ≢ j
    → Started ct j s (b, s')
    → Advances (s.exchanges k).progress (s'.exchanges k).progress
Started-Advances ct j k s s' b ne (inl (quiet, same)) = inr (rw same refl)
Started-Advances ct j k s s' b ne (inr (req_id, begun, o)) = o.others k ne

module _ (read_response : ℕ → Bytes → ParsedResponse) (write_response : ServerResponse → Bytes)
    (write_headers : Map Bytes (List Bytes) → Bytes) where
  pub Step-Goes :
      {w v : World} (k i req_id : ℕ)
      → Step read_response write_response write_headers w v
      → Through (w.handlers k) i req_id
      → Goes k i req_id w v
  Step-Goes k i req_id (accept c created_on conn free) t = record {
    sent_as = t;
    advances = inr refl;
  }
  Step-Goes k i req_id (spawn c tun ct msg m reads hands) t = record {
    sent_as = t;
    advances = inr refl;
  }
  Step-Goes {w} k i req_id (round draws c tun ct received n s reads rest h) t = record {
    sent_as = t;
    advances =
        (process_message-Frames draws read_response write_response ct tun received w.server n s
            h).advances
          k;
  }
  Step-Goes {w} k i req_id (heartbeat c tun ct s reads h) t = record {
    sent_as = t;
    advances = (send_heartbeat-Frames ct tun w.server s h).advances k;
  }
  Step-Goes {w} k i req_id (respond before after ct m s waits h) t = record {
    sent_as = t;
    advances = (handle_response-Frames read_response ct m w.server s h).advances k;
  }
  Step-Goes {w} k i req_id (look_up j req writer ct new host known) t = record {
    sent_as = kept w.handlers j k i req_id _ (λ u. absurd (rw new at u)) t;
    advances = inr refl;
  }
  Step-Goes {w} k i req_id (send draws fuel j ct req writer b s ready h) t = record {
    sent_as = kept w.handlers j k i req_id _ (λ u. absurd (rw ready at u)) t;
    advances =
        Started-Advances ct j k w.server s b (λ same. absurd (rw (same, ready) at t))
          (subst (Started ct j w.server) h (
            with_request-Started write_headers draws fuel ct j writer w.server
              (serialize_request write_headers req)));
  }
  Step-Goes {w} k i req_id (abandon j ct req writer ready) t = record {
    sent_as = kept w.handlers j k i req_id unsent (λ u. absurd (rw ready at u)) t;
    advances = inr refl;
  }
  Step-Goes {w} k i req_id (give_up j ct id waits) t = record {
    sent_as = t;
    advances = (cancel-Frame j context_canceled w.server).advances k;
  }
  Step-Goes {w} k i req_id (end j ct id writer s waits h) t = record {
    sent_as = kept w.handlers j k i req_id (ended ct id) (λ u. rw waits at u) t;
    advances = (subst (λ p. Frame w.server p.1) h (finish-Frame ct id j w.server)).advances k;
  }
  Step-Goes k i req_id (break c e) t = record { sent_as = t; advances = inr refl }

  Reach-Goes :
      {w v : World} (k i req_id : ℕ)
      → Reach read_response write_response write_headers w v
      → Through (w.handlers k) i req_id
      → Goes k i req_id w v
  Reach-Goes k i req_id here t = record { sent_as = t; advances = inr refl }
  Reach-Goes k i req_id (next reach step) t =
      let before = Reach-Goes k i req_id reach t in
      let after = Step-Goes k i req_id step before.sent_as in
      record {
        sent_as = after.sent_as;
        advances = Advances-trans _ _ _ before.advances after.advances;
      }

  -- Once a request has been sent and is settled, by an answer or by a cause, no later history changes
  -- what has become of it, and its id stays its id in its tunnel.
  pub Reach-settled :
      {w v : World} (k i req_id : ℕ)
      → Reach read_response write_response write_headers w v
      → Through (w.handlers k) i req_id
      → (w.server.exchanges k).progress ≢ waiting
      → Through (v.handlers k) i req_id
        × ((v.server.exchanges k).progress ≡ (w.server.exchanges k).progress)
  Reach-settled k i req_id reach t settled =
      let goes = Reach-Goes k i req_id reach t in
      elim goes.advances [ inl still ↦ absurd (settled still) | inr same ↦ (goes.sent_as, same) ]
