-- ===== src/Server/Requests/Answering.antt =====
-- internal/server/main.go: an exchange gets its answer from a response for its id, and in no other way.
use mathlib.Core.Path.{subst}
use mmar.Constants.{request_id_buff_size}
use mmar.Http.{ResponseWriter}
use mmar.Prelude.Io.{Error}
use mmar.Prelude.Maps.{Map, lookup}
use mmar.Prelude.{
  ℕ, ◌≡◌, refl, sym, ap, Bytes, List, Option, none, some, arith, nat_eq, eqn, ltb, length, take,
  drop, ◌⊎◌, inl, inr, Bool-cases,
}
use mmar.Protocol.{TunnelMessage}
use mmar.Server.Cancel.{cancel, cancel_progress}
use mmar.Server.Registry.Frames.{close_client_tunnel-exchanges}
use mmar.Server.Registry.{send_on}
use mmar.Server.RequestId.{uint32, generate_unique_request_id}
use mmar.Server.Requests.{
  store_inflight, delete_inflight, open_exchange, forwarded, tunnel_request, with_request, finish,
  finish_by, ParsedResponse, parsed, parse_failed, answer, deliver, disconnected, by_response,
  by_inflight, handle_response_messages, request_message,
}
use mmar.Server.Serialize.{Serialized, sent, given_up, still_reading}
use mmar.Server.State.{
  Cause, read_resp_body_err, failed_to_read_resp_from_mmar_client_err, OutgoingResponse, Progress,
  waiting, answered, cancelled, client_disconnected_err, ClientTunnel, MmarServer, running,
}

-- The answer that an exchange has.
abbrev pub IsAnsweredWith : MmarServer → ℕ → OutgoingResponse → Type 0
IsAnsweredWith s j resp = (s.exchanges j).progress ≡ answered resp

cancel_progress-answered :
    (why : Cause) (p : Progress) (resp : OutgoingResponse)
    → cancel_progress why p ≡ answered resp
    → p ≡ answered resp
unfolding cancel_progress
cancel_progress-answered why waiting resp h = absurd (cc)
cancel_progress-answered why (answered r) resp h = h
cancel_progress-answered why (cancelled first) resp h = absurd (cc)

-- Giving a request up answers none.
pub cancel-answered :
    (k : ℕ) (why : Cause) (s : MmarServer) (j : ℕ) (resp : OutgoingResponse)
    → IsAnsweredWith (cancel k why s) j resp
    → IsAnsweredWith s j resp
unfolding cancel
cancel-answered k why s j resp h =
    ground (arith, h, cancel_progress-answered why (s.exchanges k).progress resp)

forwarded-answered :
    (k : ℕ) (r : Option Error × MmarServer) (j : ℕ) (resp : OutgoingResponse)
    → IsAnsweredWith (forwarded k r) j resp
    → IsAnsweredWith r.1 j resp
unfolding forwarded
forwarded-answered k (none, s) j resp h = h
forwarded-answered k (some e, s) j resp h = cancel-answered k _ s j resp h

tunnel_request-answered :
    (ct : ClientTunnel) (k : ℕ) (w : ResponseWriter) (serialized : Bytes) (s : MmarServer)
    (o : Option ℕ) (j : ℕ) (resp : OutgoingResponse)
    → IsAnsweredWith (tunnel_request ct k w serialized s o).1 j resp
    → IsAnsweredWith s j resp
unfolding tunnel_request
tunnel_request-answered ct k w serialized s none j resp h = h
tunnel_request-answered ct k w serialized s (some req_id) j resp h =
    let q = store_inflight ct req_id k (open_exchange k w s) in
    opened (
      sent_on
        (forwarded-answered k (send_on ct.conn (request_message req_id serialized) q) j resp h))
  where
    sent_on :
        IsAnsweredWith
          (send_on ct.conn
            (request_message req_id serialized)
            (store_inflight ct req_id k (open_exchange k w s))).1
          j
          resp
        → IsAnsweredWith (store_inflight ct req_id k (open_exchange k w s)) j resp
    sent_on h = unfold send_on in h

    opened :
        IsAnsweredWith (store_inflight ct req_id k (open_exchange k w s)) j resp
        → IsAnsweredWith s j resp
    opened h = unfold store_inflight in unfold open_exchange in ground (arith, h)

-- The start of a request answers none.
pub with_request-answered :
    (write_headers : Map Bytes (List Bytes) → Bytes) (draws : ℕ → ℕ) (fuel : ℕ) (ct : ClientTunnel)
    (k : ℕ) (w : ResponseWriter) (s : MmarServer) (z : Serialized) (j : ℕ) (resp : OutgoingResponse)
    → IsAnsweredWith (with_request write_headers draws fuel ct k w s z).1 j resp
    → IsAnsweredWith s j resp
unfolding with_request
with_request-answered write_headers draws fuel ct k w s (given_up why) j resp h = h
with_request-answered write_headers draws fuel ct k w s still_reading j resp h = h
with_request-answered write_headers draws fuel ct k w s (sent serialized) j resp h =
    tunnel_request-answered ct k w serialized s
      (generate_unique_request_id (s.shareds ct.shared).inflight draws fuel) j resp h

-- The end of a request touches no exchange.
pub finish-exchanges :
    (ct : ClientTunnel) (req_id k : ℕ) (s : MmarServer)
    → (finish ct req_id k s).1.exchanges ≡ s.exchanges
unfolding finish finish_by delete_inflight
finish-exchanges ct req_id k s = by (s.exchanges k).progress
  where
    by : (p : Progress) → (finish_by p (s.exchanges k).writer ct req_id s).1.exchanges ≡ s.exchanges
    by waiting = refl
    by (answered resp) = refl
    by (cancelled why) = refl

-- The response that a parsed one gives.
abbrev pub ReadAs : ParsedResponse → OutgoingResponse → Type 0
ReadAs p resp =
    (headers : List (Bytes × Bytes × List Bytes)) × (p
      ≡ parsed resp.status_code headers (some resp.body))

answer-answered :
    (new : OutgoingResponse) (p : Progress) (resp : OutgoingResponse)
    → answer new p ≡ answered resp
    → (p ≡ answered resp) ⊎ (new ≡ resp)
unfolding answer
answer-answered new waiting resp h = inr (cc)
answer-answered new (answered first) resp h = inl h
answer-answered new (cancelled why) resp h = absurd (cc)

deliver-answered :
    (k status : ℕ) (headers : List (Bytes × Bytes × List Bytes)) (body : Bytes) (s : MmarServer)
    (j : ℕ) (resp : OutgoingResponse)
    → IsAnsweredWith (deliver k status headers body s) j resp
    → IsAnsweredWith s j resp ⊎ ((k ≡ j) × ReadAs (parsed status headers (some body)) resp)
unfolding deliver
deliver-answered k status headers body s j resp h = elim (Bool-cases (eqn k j)) [
  | inl same ↦
      let this : k ≡ j = ground (arith, same) in
      elim (answer-answered (record { status_code = status; body = body }) (s.exchanges k).progress
        resp (ground (arith, h, same))) [
          | inl before ↦ inl (rw (← this) before)
          | inr new ↦ inr (this, (headers, rw (← new) refl))
        ]
  | inr other ↦ inl (ground (arith, h, other))
]

by_response-answered :
    (ct : ClientTunnel) (k : ℕ) (s s' : MmarServer) (p : ParsedResponse) (j : ℕ)
    (resp : OutgoingResponse)
    → by_response ct k s p ≡ running s'
    → IsAnsweredWith s' j resp
    → IsAnsweredWith s j resp ⊎ ((k ≡ j) × ReadAs p resp)
unfolding by_response
by_response-answered ct k s s' (parse_failed e) j resp h a = elim (Bool-cases (disconnected e)) [
  | inl gone ↦
      let same =
        close_client_tunnel-exchanges ct (cancel k client_disconnected_err s) s' (rw gone at h) in
      inl (cancel-answered k client_disconnected_err s j resp (rw same at a))
  | inr other ↦
      let this : running (cancel k failed_to_read_resp_from_mmar_client_err s) ≡ running s' =
        rw other at h in
      let same : cancel k failed_to_read_resp_from_mmar_client_err s ≡ s' = cc in
      inl (cancel-answered k failed_to_read_resp_from_mmar_client_err s j resp (rw same a))
]
by_response-answered ct k s s' (parsed status headers none) j resp h a =
    let this : cancel k read_resp_body_err s ≡ s' = cc in
    inl (cancel-answered k read_resp_body_err s j resp (rw this a))
by_response-answered ct k s s' (parsed status headers (some body)) j resp h a =
    let this : deliver k status headers body s ≡ s' = cc in
    deliver-answered k status headers body s j resp
      (subst (λ q. IsAnsweredWith q j resp) (sym this) a)

module _ (read_response : ℕ → Bytes → ParsedResponse) where
  by_inflight-answered :
      (ct : ClientTunnel) (req_id : ℕ) (response : Bytes) (s s' : MmarServer) (o : Option ℕ) (j : ℕ)
      (resp : OutgoingResponse)
      → by_inflight read_response ct req_id response s o ≡ running s'
      → IsAnsweredWith s' j resp
      → IsAnsweredWith s j resp ⊎ ((o ≡ some j) × ReadAs (read_response j response) resp)
  unfolding by_inflight delete_inflight
  by_inflight-answered ct req_id response s s' none j resp h a =
      let this : s ≡ s' = cc in inl (rw this a)
  by_inflight-answered ct req_id response s s' (some k) j resp h a =
      elim (by_response-answered ct k (delete_inflight ct req_id s) s' (read_response k response) j
        resp h a) [
          | inl before ↦ inl before
          | inr (this, read) ↦
              inr (ap some this, subst (λ i. ReadAs (read_response i response) resp) this read)
        ]

  -- A response that answers an exchange is one for the id under which the exchange is in flight, and
  -- its status and body are those of the response behind the id.
  pub handle_response-answered :
      (ct : ClientTunnel) (msg : TunnelMessage) (s s' : MmarServer) (j : ℕ)
      (resp : OutgoingResponse)
      → handle_response_messages read_response (some ct) msg s ≡ running s'
      → IsAnsweredWith s' j resp
      → IsAnsweredWith s j resp
        ⊎ ((lookup (uint32 (take request_id_buff_size msg.msg_data)) (s.shareds ct.shared).inflight
              ≡ some j)
            × ReadAs (read_response j (drop request_id_buff_size msg.msg_data)) resp)
  unfolding handle_response_messages
  handle_response-answered ct msg s s' j resp h a =
      elim (Bool-cases (ltb (length msg.msg_data) request_id_buff_size)) [
        | inl short ↦ let this : s ≡ s' = ground (arith, short, h) in inl (rw this a)
        | inr long ↦
            by_inflight-answered ct (uint32 (take request_id_buff_size msg.msg_data))
              (drop request_id_buff_size msg.msg_data) s s' _ j resp (rw long at h) a
      ]
