-- ===== src/Server/World/Provenance.antt =====
-- internal/server/main.go: over any history of the server, what a request is answered with is a response
-- that came over its own tunnel under its own id.
use mathlib.Core.Path.{subst}
use mmar.Http.{ServerResponse}
use mmar.Constants.{request_id_buff_size}
use mmar.Prelude.Maps.{Map, lookup}
use mmar.Prelude.{
  ℕ, ◌≡◌, refl, sym, ap, ◌∙◌, Bytes, List, none, some, nat_eq, take, drop, ◌⊎◌, inl, inr,
}
use mmar.Server.Loop.Quiet.{process_message-exchanges, send_heartbeat-exchanges}
use mmar.Server.RequestId.{uint32}
use mmar.Server.Requests.Answering.{
  IsAnsweredWith, ReadAs, cancel-answered, with_request-answered, finish-exchanges,
  handle_response-answered,
}
use mmar.Server.Requests.{ParsedResponse, handle_response_messages}
use mmar.Server.Serialize.{serialize_request}
use mmar.Server.State.{context_canceled, OutgoingResponse, MmarServer}
use mmar.Server.World.Routing.{Through, IsRouted, Reach-IsRouted}
use mmar.Server.World.Settled.{Step-Goes}
use mmar.Server.World.{
  World, Step, accept, spawn, round, heartbeat, respond, look_up, send, abandon, give_up, end,
  break, Reach, here, next,
}

module _ (read_response : ℕ → Bytes → ParsedResponse) (write_response : ServerResponse → Bytes)
    (write_headers : Map Bytes (List Bytes) → Bytes) where
  -- The step handles a response of a tunnel: its channels, the id in front and the bytes behind it.
  abbrev Responds :
      {w v : World} → Step read_response write_response write_headers w v → ℕ → ℕ → Bytes → Type 0
  Responds (respond before after none m s waits h) i req_id bytes = ⊥
  Responds (respond before after (some ct) m s waits h) i req_id bytes =
      (ct.shared ≡ i)
      × (uint32 (take request_id_buff_size m.msg_data) ≡ req_id)
      × (drop request_id_buff_size m.msg_data ≡ bytes)
  Responds (accept c created_on conn free) i req_id bytes = ⊥
  Responds (spawn c t ct msg m reads hands) i req_id bytes = ⊥
  Responds (round draws c t ct received n s reads rest h) i req_id bytes = ⊥
  Responds (heartbeat c t ct s reads h) i req_id bytes = ⊥
  Responds (look_up k req writer ct new host known) i req_id bytes = ⊥
  Responds (send draws fuel k ct req writer b s ready h) i req_id bytes = ⊥
  Responds (abandon k ct req writer ready) i req_id bytes = ⊥
  Responds (give_up k ct req_id waits) i id bytes = ⊥
  Responds (end k ct req_id writer s waits h) i id bytes = ⊥
  Responds (break c e) i req_id bytes = ⊥

  -- Some step of the history does.
  abbrev Responded :
      {w v : World} → Reach read_response write_response write_headers w v → ℕ → ℕ → Bytes → Type 0
  Responded here i req_id bytes = ⊥
  Responded (next reach step) i req_id bytes =
      Responded reach i req_id bytes ⊎ Responds step i req_id bytes

  -- Where the answer of a request comes from: the tunnel that it was sent through and its id there,
  -- and a response for that id that the history has handled for that tunnel.
  pub record Answer {w v : World} (reach : Reach read_response write_response write_headers w v)
      (k : ℕ) (resp : OutgoingResponse) : Type 0 where
    pub tunnel : ℕ
    pub req_id : ℕ
    pub bytes : Bytes
    pub sent_as : Through (v.handlers k) tunnel req_id
    pub came : Responded reach tunnel req_id bytes
    pub read : ReadAs (read_response k bytes) resp

  -- A response that a step handles for an id in flight.
  record New {w v : World} (step : Step read_response write_response write_headers w v) (k : ℕ)
      (resp : OutgoingResponse) : Type 0 where
    tunnel : ℕ
    req_id : ℕ
    bytes : Bytes
    in_flight : lookup req_id (w.server.shareds tunnel).inflight ≡ some k
    comes : Responds step tunnel req_id bytes
    read : ReadAs (read_response k bytes) resp

  same_exchanges :
      (s s' : MmarServer) (k : ℕ) (resp : OutgoingResponse)
      → s'.exchanges ≡ s.exchanges
      → IsAnsweredWith s' k resp
      → IsAnsweredWith s k resp
  same_exchanges s s' k resp same a = ap (λ x. (x k).progress) (sym same) ∙ a

  Step-answered :
      {w v : World} (k : ℕ) (resp : OutgoingResponse)
      (step : Step read_response write_response write_headers w v)
      → IsAnsweredWith v.server k resp
      → IsAnsweredWith w.server k resp ⊎ New step k resp
  Step-answered k resp (accept c created_on conn free) a = inl a
  Step-answered k resp (spawn c t ct msg m reads hands) a = inl a
  Step-answered {w} k resp (round draws c t ct received n s reads rest h) a = inl (
      same_exchanges w.server s k resp
        (process_message-exchanges draws read_response write_response ct t received w.server rest n
          s h)
        a)
  Step-answered {w} k resp (heartbeat c t ct s reads h) a =
      inl (same_exchanges w.server s k resp (send_heartbeat-exchanges ct t w.server s h) a)
  Step-answered k resp (respond before after none m s waits h) a =
      absurd (unfold handle_response_messages in cc)
  Step-answered {w} k resp (respond before after (some ct) m s waits h) a =
      elim (handle_response-answered read_response ct m w.server s k resp h a) [
        | inl old ↦ inl old
        | inr (found, read) ↦ inr (record {
          tunnel = ct.shared;
          req_id = uint32 (take request_id_buff_size m.msg_data);
          bytes = drop request_id_buff_size m.msg_data;
          in_flight = found;
          comes = (refl, refl, refl);
          read = read;
        })
      ]
  Step-answered k resp (look_up j req writer ct new host known) a = inl a
  Step-answered {w} k resp (send draws fuel j ct req writer b s ready h) a = inl (
      with_request-answered write_headers draws fuel ct j writer w.server
        (serialize_request write_headers req) k resp
        (subst (λ p. IsAnsweredWith p.1 k resp) (sym h) a))
  Step-answered k resp (abandon j ct req writer ready) a = inl a
  Step-answered {w} k resp (give_up j ct req_id waits) a =
      inl (cancel-answered j context_canceled w.server k resp a)
  Step-answered {w} k resp (end j ct req_id writer s waits h) a = inl (
      same_exchanges w.server s k resp
        (subst (λ p. p.1.exchanges ≡ w.server.exchanges) h (finish-exchanges ct req_id j w.server))
        a)
  Step-answered k resp (break c e) a = inl a

  -- Over any history from a server with no request in flight and none answered, in any order of the
  -- steps of its goroutines: a request that has an answer was sent through some tunnel, under some
  -- id, and the answer is what a response says that came over that tunnel with that id in front.
  pub Reach-Answer :
      {w v : World} (k : ℕ) (resp : OutgoingResponse)
      (reach : Reach read_response write_response write_headers w v)
      → IsRouted w
      → ((j : ℕ) (r : OutgoingResponse) → ¬ IsAnsweredWith w.server j r)
      → IsAnsweredWith v.server k resp
      → Answer reach k resp
  Reach-Answer k resp here routed clear a = absurd (clear k resp a)
  Reach-Answer k resp (next reach step) routed clear a = elim (Step-answered k resp step a) [
    | inl old ↦
        let before = Reach-Answer k resp reach routed clear old in
        record {
          tunnel = before.tunnel;
          req_id = before.req_id;
          bytes = before.bytes;
          sent_as =
              (Step-Goes read_response write_response write_headers k before.tunnel before.req_id
                step before.sent_as).sent_as;
          came = inl before.came;
          read = before.read;
        }
    | inr new ↦
        let through =
          Reach-IsRouted read_response write_response write_headers reach routed new.tunnel
            new.req_id k new.in_flight in
        record {
          tunnel = new.tunnel;
          req_id = new.req_id;
          bytes = new.bytes;
          sent_as =
              (Step-Goes read_response write_response write_headers k new.tunnel new.req_id step
                through).sent_as;
          came = inr new.comes;
          read = new.read;
        }
  ]
