-- ===== src/Server/Requests/Frames.antt =====
-- internal/server/main.go: a response settles the request that it is for and no other, and the start
-- of a request puts one id in flight.
use mmar.Constants.{request_id_buff_size}
use mmar.Http.{ResponseWriter}
use mmar.Prelude.Io.{Error}
use mmar.Prelude.Maps.{Map, lookup, lookup-insert, lookup-delete}
use mmar.Prelude.{
  ℕ, ◌≡◌, ◌≢◌, refl, Bytes, List, Option, none, some, arith, eqn, nat_eq, take, drop, length, ltb,
  ◌⊎◌, inl, inr, Bool-cases,
}
use mmar.Protocol.{TunnelMessage}
use mmar.Server.Cancel.{cancel}
use mmar.Server.Frame.{
  Advances, Advances-trans, Frame, Frame-refl, Frame-trans, Frames, running-Frames, crashed-Frames,
  Frames-trans, cancel-Frame, exchange-Frame,
}
use mmar.Server.Keeps.{if_both}
use mmar.Server.Registry.Frames.{
  close_client_tunnel-exchanges, close_client_tunnel-Frames, send_on-Frame,
}
use mmar.Server.Registry.{send_on}
use mmar.Server.RequestId.{uint32, generate_unique_request_id}
use mmar.Server.Requests.{
  Begun, tunneled, store_inflight, delete_inflight, open_exchange, forwarded, tunnel_request,
  with_request, finish, finish_by, ParsedResponse, parsed, parse_failed, answer, deliver,
  disconnected, by_response, by_inflight, handle_response_messages, request_message,
}
use mmar.Server.Serialize.{Serialized, sent, given_up, still_reading}
use mmar.Server.State.{
  client_disconnected_err, OutgoingResponse, Progress, waiting, answered, cancelled, ClientTunnel,
  MmarServer, running,
}

delete_inflight-Frame :
    (ct : ClientTunnel) (req_id : ℕ) (s : MmarServer) → Frame s (delete_inflight ct req_id s)
unfolding delete_inflight
delete_inflight-Frame ct req_id s = record {
  fewer = λ i id k h. ground (arith, h, lookup-delete req_id id (s.shareds ct.shared).inflight);
  advances = λ k. inr refl;
}

answer-Advances : (resp : OutgoingResponse) (p : Progress) → Advances p (answer resp p)
unfolding answer
answer-Advances resp waiting = inl refl
answer-Advances resp (answered first) = inr refl
answer-Advances resp (cancelled why) = inr refl

deliver-Frame :
    (k status : ℕ) (headers : List (Bytes × Bytes × List Bytes)) (body : Bytes) (s : MmarServer)
    → Frame s (deliver k status headers body s)
unfolding deliver
deliver-Frame k status headers body s =
    exchange-Frame k _ s (answer-Advances _ (s.exchanges k).progress)

by_response-Frames :
    (ct : ClientTunnel) (k : ℕ) (s : MmarServer) (p : ParsedResponse)
    → Frames s (by_response ct k s p)
unfolding by_response
by_response-Frames ct k s (parse_failed e) =
    if_both (Frames s) (disconnected e)
      (Frames-trans (cancel-Frame k _ s) (close_client_tunnel-Frames ct _))
      (running-Frames (cancel-Frame k _ s))
by_response-Frames ct k s (parsed status headers none) = running-Frames (cancel-Frame k _ s)
by_response-Frames ct k s (parsed status headers (some body)) =
    running-Frames (deliver-Frame k status headers body s)

module _ (read_response : ℕ → Bytes → ParsedResponse) where
  by_inflight-Frames :
      (ct : ClientTunnel) (req_id : ℕ) (response : Bytes) (s : MmarServer) (o : Option ℕ)
      → Frames s (by_inflight read_response ct req_id response s o)
  unfolding by_inflight
  by_inflight-Frames ct req_id response s none = running-Frames (Frame-refl s)
  by_inflight-Frames ct req_id response s (some k) =
      Frames-trans (delete_inflight-Frame ct req_id s)
        (by_response-Frames ct k (delete_inflight ct req_id s) (read_response k response))

  pub handle_response-Frames :
      (ct : Option ClientTunnel) (msg : TunnelMessage) (s : MmarServer)
      → Frames s (handle_response_messages read_response ct msg s)
  unfolding handle_response_messages
  handle_response-Frames none msg s = crashed-Frames
  handle_response-Frames (some ct) msg s =
      if_both (Frames s) _ (running-Frames (Frame-refl s))
        (by_inflight-Frames ct (uint32 (take request_id_buff_size msg.msg_data)) _ s _)

pub finish-Frame :
    (ct : ClientTunnel) (req_id k : ℕ) (s : MmarServer) → Frame s (finish ct req_id k s).1
unfolding finish finish_by
finish-Frame ct req_id k s = by (s.exchanges k).progress
  where
    by : (p : Progress) → Frame s (finish_by p (s.exchanges k).writer ct req_id s).1
    by waiting = Frame-refl s
    by (answered resp) = Frame-refl s
    by (cancelled why) = delete_inflight-Frame ct req_id s

-- A request is under way in one state that was not in another: its id may have entered, and every
-- other exchange is within the frame.
pub record Opens (ct : ClientTunnel) (req_id k : ℕ) (s s' : MmarServer) : Type 0 where
  pub entered :
      (i id j : ℕ)
      → lookup id (s'.shareds i).inflight ≡ some j
      → (lookup id (s.shareds i).inflight ≡ some j) ⊎ ((ct.shared ≡ i) × (req_id ≡ id) × (k ≡ j))
  pub others : (j : ℕ) → j ≢ k → Advances (s.exchanges j).progress (s'.exchanges j).progress

Opens-Frame :
    {ct : ClientTunnel} {req_id k : ℕ} {s t u : MmarServer}
    → Opens ct req_id k s t
    → Frame t u
    → Opens ct req_id k s u
Opens-Frame o f = record {
  entered = λ i id j h. o.entered i id j (f.fewer i id j h);
  others = λ j ne. Advances-trans _ _ _ (o.others j ne) (f.advances j);
}

stored-Opens :
    (ct : ClientTunnel) (req_id k : ℕ) (w : ResponseWriter) (s : MmarServer)
    → Opens ct req_id k s (store_inflight ct req_id k (open_exchange k w s))
unfolding store_inflight open_exchange
stored-Opens ct req_id k w s = record {
  entered = λ i id j h. ground (arith, h, lookup-insert req_id id k (s.shareds ct.shared).inflight);
  others = λ j ne. inr (ground (arith, ne));
}

forwarded-Frame : (k : ℕ) (r : Option Error × MmarServer) → Frame r.1 (forwarded k r)
unfolding forwarded
forwarded-Frame k (none, s) = Frame-refl s
forwarded-Frame k (some e, s) = cancel-Frame k _ s

-- What does not put a request under way.
abbrev pub Unsent : Begun → Type 0
Unsent (tunneled ct req_id) = ⊥
Unsent b = Unit

-- The end of a request's start: nothing has happened, or the request is under way.
abbrev pub Started : ClientTunnel → ℕ → MmarServer → Begun × MmarServer → Type 0
Started ct k s (b, s') =
    (Unsent b × (s' ≡ s)) ⊎ ((req_id : ℕ) × (b ≡ tunneled ct req_id) × Opens ct req_id k s s')

tunnel_request-Started :
    (ct : ClientTunnel) (k : ℕ) (w : ResponseWriter) (serialized : Bytes) (s : MmarServer)
    (o : Option ℕ)
    → Started ct k s (tunnel_request ct k w serialized s o)
unfolding tunnel_request
tunnel_request-Started ct k w serialized s none = inl (tt, refl)
tunnel_request-Started ct k w serialized s (some req_id) =
    let q = store_inflight ct req_id k (open_exchange k w s) in
    let r = send_on ct.conn (request_message req_id serialized) q in
    inr (
      req_id,
      refl,
      Opens-Frame (stored-Opens ct req_id k w s) (
          Frame-trans (send_on-Frame ct.conn (request_message req_id serialized) q)
            (forwarded-Frame k r)),
    )

pub with_request-Started :
    (write_headers : Map Bytes (List Bytes) → Bytes) (draws : ℕ → ℕ) (fuel : ℕ) (ct : ClientTunnel)
    (k : ℕ) (w : ResponseWriter) (s : MmarServer) (z : Serialized)
    → Started ct k s (with_request write_headers draws fuel ct k w s z)
unfolding with_request
with_request-Started write_headers draws fuel ct k w s (given_up why) = inl (tt, refl)
with_request-Started write_headers draws fuel ct k w s still_reading = inl (tt, refl)
with_request-Started write_headers draws fuel ct k w s (sent serialized) =
    tunnel_request-Started ct k w serialized s
      (generate_unique_request_id (s.shareds ct.shared).inflight draws fuel)

-- The exchanges that a response may touch: that of the request in flight under its id.
by_response-exchanges :
    (ct : ClientTunnel) (k j : ℕ) (s s' : MmarServer) (p : ParsedResponse)
    → j ≢ k
    → by_response ct k s p ≡ running s'
    → s'.exchanges j ≡ s.exchanges j
unfolding by_response cancel
by_response-exchanges ct k j s s' (parse_failed e) ne h = elim (Bool-cases (disconnected e)) [
  | inl gone ↦ ground (
    arith,
    ne,
    close_client_tunnel-exchanges ct (cancel k client_disconnected_err s) s' (rw gone at h),
  )
  | inr other ↦ ground (arith, ne, h, other)
]
by_response-exchanges ct k j s s' (parsed status headers none) ne h = ground (arith, ne, h)
by_response-exchanges ct k j s s' (parsed status headers (some body)) ne h =
    unfold deliver in ground (arith, ne, h)

by_inflight-own :
    (read_response : ℕ → Bytes → ParsedResponse) (ct : ClientTunnel) (req_id j : ℕ)
    (response : Bytes) (s s' : MmarServer) (o : Option ℕ)
    → by_inflight read_response ct req_id response s o ≡ running s'
    → (s'.exchanges j ≡ s.exchanges j) ⊎ (o ≡ some j)
unfolding by_inflight delete_inflight
by_inflight-own read_response ct req_id j response s s' none h = inl (ground (arith, h))
by_inflight-own read_response ct req_id j response s s' (some k) h = elim (Bool-cases (eqn j k)) [
  | inl same ↦ inr (ground (arith, same))
  | inr differs ↦ inl (
      by_response-exchanges ct k j (delete_inflight ct req_id s) s' (read_response k response)
        (ground (arith, differs)) h)
]

-- A response touches no exchange but that of the request in flight under its id.
pub handle_response-own :
    (read_response : ℕ → Bytes → ParsedResponse) (ct : ClientTunnel) (msg : TunnelMessage)
    (s s' : MmarServer) (j : ℕ)
    → handle_response_messages read_response (some ct) msg s ≡ running s'
    → (s'.exchanges j ≡ s.exchanges j)
      ⊎ (lookup (uint32 (take request_id_buff_size msg.msg_data)) (s.shareds ct.shared).inflight
          ≡ some j)
unfolding handle_response_messages
handle_response-own read_response ct msg s s' j h =
    elim (Bool-cases (ltb (length msg.msg_data) request_id_buff_size)) [
      | inl short ↦ inl (ground (arith, short, h))
      | inr long ↦
          by_inflight-own read_response ct (uint32 (take request_id_buff_size msg.msg_data)) j
            (drop request_id_buff_size msg.msg_data) s s' _ (rw long at h)
    ]
