-- ===== src/Server/Requests/Keeping.antt =====
-- internal/server/main.go: requests and responses keep what the tables of the server keep, and a
-- response crashes nothing while the tunnel's channels are open.
use mmar.Prelude.{List, ℕ, arith, refl, Bytes, Option, none, some}
use mmar.Protocol.{TunnelMessage}
use mmar.Server.Cancel.{cancel}
use mmar.Server.Keeps.{
  Invariant, Holds, MayClose, if_both, Keeps, running-Keeps, close-Keeps, Runs, HasChannels,
  close-Runs,
}
use mmar.Server.Requests.{
  ParsedResponse, parsed, parse_failed, by_response, by_inflight, deliver, delete_inflight,
  handle_response_messages, store_inflight, open_exchange, forwarded, tunnel_request, with_request,
  finish, finish_by,
}
use mmar.Server.State.{Progress, waiting, answered, cancelled, ClientTunnel, MmarServer}
use mmar.Server.Serialize.{Serialized, sent, given_up, still_reading}
use mmar.Prelude.Maps.{Map}
use mmar.Prelude.Io.{Error}
use mmar.Http.{ResponseWriter}
use mmar.Server.Registry.{send_on}

by_response-Keeps :
    (I : Invariant)
    → (ct : ClientTunnel) (k : ℕ) (s : MmarServer) (p : ParsedResponse) → I.may_close ct
    → Holds I s
    → Keeps I (by_response ct k s p)
unfolding by_response cancel
by_response-Keeps I ct k s (parse_failed e) may capped =
    if_both (Keeps I) _ (close-Keeps I ct _ may capped) (running-Keeps I capped)
by_response-Keeps I ct k s (parsed status headers none) may capped = running-Keeps I capped
by_response-Keeps I ct k s (parsed status headers (some body)) may capped =
    unfold deliver in running-Keeps I capped

by_response-Runs :
    (ct : ClientTunnel) (k : ℕ) (s : MmarServer) (p : ParsedResponse)
    → HasChannels ct s
    → Runs (by_response ct k s p)
unfolding by_response cancel
by_response-Runs ct k s (parse_failed e) o = if_both Runs _ (close-Runs ct _ o) (_, refl)
by_response-Runs ct k s (parsed status headers none) o = (_, refl)
by_response-Runs ct k s (parsed status headers (some body)) o = (_, refl)

module _ (read_response : ℕ → Bytes → ParsedResponse) where
  by_inflight-Keeps :
      (I : Invariant)
      → (ct : ClientTunnel) (id : ℕ) (response : Bytes) (s : MmarServer) (found : Option ℕ)
      → I.may_close ct
      → Holds I s
      → Keeps I (by_inflight read_response ct id response s found)
  unfolding by_inflight delete_inflight
  by_inflight-Keeps I ct id response s none may capped = running-Keeps I capped
  by_inflight-Keeps I ct id response s (some k) may capped =
      by_response-Keeps I ct k _ (read_response k response) may capped

  pub handle_response-Keeps :
      (I : Invariant)
      → (ct : Option ClientTunnel) (msg : TunnelMessage) (s : MmarServer) → MayClose I ct
      → Holds I s
      → Keeps I (handle_response_messages read_response ct msg s)
  unfolding handle_response_messages
  handle_response-Keeps I none msg s may capped = λ s' h. absurd (cc)
  handle_response-Keeps I (some ct) msg s may capped =
      if_both (Keeps I) _ (running-Keeps I capped) (by_inflight-Keeps I ct _ _ s _ may capped)

  by_inflight-Runs :
      (ct : ClientTunnel) (id : ℕ) (response : Bytes) (s : MmarServer) (found : Option ℕ)
      → HasChannels ct s
      → Runs (by_inflight read_response ct id response s found)
  unfolding by_inflight
  by_inflight-Runs ct id response s none o = (s, refl)
  by_inflight-Runs ct id response s (some k) o =
      by_response-Runs ct k _ (read_response k response) (unfold delete_inflight in ground arith)

  pub handle_response-Runs :
      (ct : ClientTunnel) (msg : TunnelMessage) (s : MmarServer)
      → HasChannels ct s
      → Runs (handle_response_messages read_response (some ct) msg s)
  unfolding handle_response_messages
  handle_response-Runs ct msg s o = if_both Runs _ (s, refl) (by_inflight-Runs ct _ _ s _ o)

forwarded-Holds :
    (I : Invariant)
    → (k : ℕ) (r : Option Error × MmarServer) → Holds I r.1
    → Holds I (forwarded k r)
unfolding forwarded cancel
forwarded-Holds I k (none, s) capped = capped
forwarded-Holds I k (some e, s) capped = capped

tunnel_request-Holds :
    (I : Invariant)
    → (ct : ClientTunnel) (k : ℕ) (w : ResponseWriter) (serialized : Bytes) (s : MmarServer)
      (o : Option ℕ)
    → Holds I s
    → Holds I (tunnel_request ct k w serialized s o).1
unfolding tunnel_request store_inflight open_exchange send_on
tunnel_request-Holds I ct k w serialized s none capped = capped
tunnel_request-Holds I ct k w serialized s (some req_id) capped = forwarded-Holds I k _ capped

pub with_request-Holds :
    (I : Invariant)
    → (write_headers : Map Bytes (List Bytes) → Bytes) (draws : ℕ → ℕ) (fuel : ℕ)
      (ct : ClientTunnel) (k : ℕ) (w : ResponseWriter) (s : MmarServer) (z : Serialized)
    → Holds I s
    → Holds I (with_request write_headers draws fuel ct k w s z).1
unfolding with_request
with_request-Holds I write_headers draws fuel ct k w s (given_up why) capped = capped
with_request-Holds I write_headers draws fuel ct k w s still_reading capped = capped
with_request-Holds I write_headers draws fuel ct k w s (sent serialized) capped =
    tunnel_request-Holds I ct k w serialized s _ capped

finish_by-Holds :
    (I : Invariant)
    → (p : Progress) (w : ResponseWriter) (ct : ClientTunnel) (req_id : ℕ) (s : MmarServer)
    → Holds I s
    → Holds I (finish_by p w ct req_id s).1
unfolding finish_by delete_inflight
finish_by-Holds I waiting w ct req_id s capped = capped
finish_by-Holds I (answered resp) w ct req_id s capped = capped
finish_by-Holds I (cancelled why) w ct req_id s capped = capped

pub finish-Holds :
    (I : Invariant)
    → (ct : ClientTunnel) (req_id k : ℕ) (s : MmarServer) → Holds I s
    → Holds I (finish ct req_id k s).1
unfolding finish
finish-Holds I ct req_id k s capped = finish_by-Holds I _ _ ct req_id s capped
