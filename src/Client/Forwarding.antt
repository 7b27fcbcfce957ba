-- ===== src/Client/Forwarding.antt =====
-- internal/client/main.go: what a client does with the server's messages.
use mmar.Auth.{AuthManager}
use mmar.Client.{
  ConfigOptions, MmarClient, goes_on, exits, is_empty, Certificate, ParsedRequest, request_uri,
  Forwarded, response, forward_failed, set_up, reply_message, failure_type, local_url, send_or_exit,
  sent_or_exits, Attempt, by_request, handle_data, by_set_up, handle_request_message, react,
  process_tunnel_message,
}
use mmar.Prelude.Io.{
  Error, ok, eof, unexpected_eof, err_closed, econnreset, deadline_exceeded, econnrefused,
  invalid_message_protocol_version, invalid_message_type, syntax, range, other,
}
use mmar.Prelude.Maps.{Map}
use mmar.Server.State.{ClientTunnel}
use mmar.Server.Registry.Refusals.{refused_types}
use mmar.Prelude.{
  ℕ, codes, ◌≡◌, ◌≢◌, refl, Bool, true, false, Bytes, List, [], ◌++◌, Option, some, arith, ◌⊎◌, inl,
  inr,
}
use mmar.Protocol.Conn.{IsOpen, send_open}
use mmar.Protocol.Framing.{wire, IsValidType}
use mmar.Protocol.Types
use mmar.Protocol.{TunnelMessage}
use mmar.Server.Registry.{Refusal, authenticate, choose_subdomain, turned_down}
use mmar.Server.RequestId.{put_uint32}
use mmar.Server.Requests.{request_message}

send_or_exit-open :
    (code : ℕ) (m : TunnelMessage) (mc : MmarClient)
    → IsOpen mc.conn
    → IsValidType m.msg_type
    → send_or_exit code m mc
      ≡ goes_on (record mc { conn = record mc.conn { written = mc.conn.written ++ wire m } })
unfolding send_or_exit sent_or_exits
send_or_exit-open code m mc o v = rw (send_open m mc.conn o v) refl

failure_type-IsValidType : (e : Error) → IsValidType (failure_type e)
unfolding failure_type
failure_type-IsValidType eof = omega arith
failure_type-IsValidType unexpected_eof = omega arith
failure_type-IsValidType err_closed = omega arith
failure_type-IsValidType econnreset = omega arith
failure_type-IsValidType deadline_exceeded = omega arith
failure_type-IsValidType econnrefused = omega arith
failure_type-IsValidType invalid_message_protocol_version = omega arith
failure_type-IsValidType invalid_message_type = omega arith
failure_type-IsValidType syntax = omega arith
failure_type-IsValidType range = omega arith
failure_type-IsValidType other = omega arith

-- The type of the message for each failure to get a response from the local server.
pub data FailureType : Error → ℕ → Type 0 where
  refused : FailureType econnrefused Types.localhost_not_running
  cut_off : FailureType unexpected_eof Types.localhost_not_running
  ended : FailureType eof Types.localhost_not_running
  late : FailureType deadline_exceeded Types.dest_request_timedout
  unclear :
      (e : Error)
      → (e ≢ econnrefused) × (e ≢ unexpected_eof) × (e ≢ eof) × (e ≢ deadline_exceeded)
      → FailureType e Types.invalid_resp_from_dest

-- The reply to a request, by what the local server gave: its response, or the kind of its failure,
-- behind the request's id.
abbrev pub IsReply : ℕ → Forwarded → TunnelMessage → Type 0
IsReply req_id (response written) m =
    (m.msg_type ≡ Types.response) × (m.msg_data ≡ put_uint32 req_id ++ written)
IsReply req_id (forward_failed e) m = FailureType e m.msg_type × (m.msg_data ≡ put_uint32 req_id)

failure_type-FailureType : (e : Error) → FailureType e (failure_type e)
unfolding failure_type
failure_type-FailureType econnrefused = refused
failure_type-FailureType unexpected_eof = cut_off
failure_type-FailureType eof = ended
failure_type-FailureType deadline_exceeded = late
failure_type-FailureType err_closed =
    unclear err_closed
      ((λ z. absurd (cc)), (λ z. absurd (cc)), (λ z. absurd (cc)), (λ z. absurd (cc)))
failure_type-FailureType econnreset =
    unclear econnreset
      ((λ z. absurd (cc)), (λ z. absurd (cc)), (λ z. absurd (cc)), (λ z. absurd (cc)))
failure_type-FailureType invalid_message_protocol_version =
    unclear invalid_message_protocol_version
      ((λ z. absurd (cc)), (λ z. absurd (cc)), (λ z. absurd (cc)), (λ z. absurd (cc)))
failure_type-FailureType invalid_message_type =
    unclear invalid_message_type
      ((λ z. absurd (cc)), (λ z. absurd (cc)), (λ z. absurd (cc)), (λ z. absurd (cc)))
failure_type-FailureType syntax =
    unclear syntax ((λ z. absurd (cc)), (λ z. absurd (cc)), (λ z. absurd (cc)), (λ z. absurd (cc)))
failure_type-FailureType range =
    unclear range ((λ z. absurd (cc)), (λ z. absurd (cc)), (λ z. absurd (cc)), (λ z. absurd (cc)))
failure_type-FailureType other =
    unclear other ((λ z. absurd (cc)), (λ z. absurd (cc)), (λ z. absurd (cc)), (λ z. absurd (cc)))

pub reply_message-IsReply :
    (req_id : ℕ) (f : Forwarded) → IsReply req_id f (reply_message (put_uint32 req_id) f)
unfolding reply_message
reply_message-IsReply req_id (response written) = (refl, refl)
reply_message-IsReply req_id (forward_failed e) = (failure_type-FailureType e, refl)

pub reply-IsValidType :
    (req_id : Bytes) (f : Forwarded) → IsValidType (reply_message req_id f).msg_type
unfolding reply_message
reply-IsValidType req_id (response written) = omega arith
reply-IsValidType req_id (forward_failed e) = failure_type-IsValidType e

module _ (certificate : Bytes → Certificate) where
  set_up-plain :
      (config : ConfigOptions) → config.custom_cert ≡ [] → set_up certificate config ≡ goes_on tt
  unfolding set_up is_empty
  set_up-plain config h = rw h refl

module _ (certificate : Bytes → Certificate) (read_request : Bytes → ParsedRequest)
    (url_parses : Bytes → Bool) (forward : Bytes → Bytes → Forwarded) where
  handle_data-id :
      (mc : MmarClient) (req_id : ℕ) (serialized : Bytes)
      → handle_data certificate read_request url_parses forward mc (put_uint32 req_id ++ serialized)
        ≡ by_request certificate read_request url_parses forward mc
            (put_uint32 req_id)
            serialized
            (read_request serialized)
  unfolding handle_data put_uint32
  handle_data-id mc req_id serialized = ground arith

  by_request-uri :
      (mc : MmarClient) (req_id serialized uri : Bytes)
      → url_parses (local_url mc.config uri) ≡ true
      → by_request certificate read_request url_parses forward mc req_id serialized
          (request_uri uri)
        ≡ send_or_exit 1 (reply_message req_id (forward (local_url mc.config uri) serialized)) mc
  unfolding by_request
  by_request-uri mc req_id serialized uri parses = rw parses refl

  handle_request_message_lem :
      (mc : MmarClient) (msg : TunnelMessage)
      → handle_request_message certificate read_request url_parses forward mc msg
        ≡ by_set_up certificate read_request url_parses forward mc msg.msg_data
            (set_up certificate mc.config)
  unfolding handle_request_message
  handle_request_message_lem mc msg = refl

  -- A client that gets a request makes its reply out of what the local server gives.
  pub forwards_reply :
      (attempts : List Attempt) (mc : MmarClient) (req_id : ℕ) (serialized uri : Bytes)
      → mc.custom_cert ≡ []
      → IsOpen mc.conn
      → read_request serialized ≡ request_uri uri
      → url_parses (local_url mc.config uri) ≡ true
      → let reply =
          reply_message (put_uint32 req_id) (forward (local_url mc.config uri) serialized) in
        process_tunnel_message certificate read_request url_parses forward false attempts mc
          (ok (request_message req_id serialized))
        ≡ some (
            goes_on
              (record mc { conn = record mc.conn { written = mc.conn.written ++ wire reply } }))
  unfolding process_tunnel_message react by_set_up
  forwards_reply attempts mc req_id serialized uri plain o reads parses =
      let f = forward (local_url mc.config uri) serialized in
      rw
        (
          handle_request_message_lem,
          set_up-plain certificate mc.config plain,
          handle_data-id mc req_id serialized,
          reads,
          by_request-uri mc (put_uint32 req_id) serialized uri parses,
          send_or_exit-open 1 (reply_message (put_uint32 req_id) f) mc o
              (reply-IsValidType (put_uint32 req_id) f),
        )
        refl

  -- The request that the server sends under an id goes to the client's port at localhost, when it can
  -- be read and its URL be parsed and the client has no certificate. Behind what was written there
  -- before, one message goes back over the client's open connection: the response, or a message of the
  -- type of the failure, with the same id in front.
  pub process-forwards :
      (attempts : List Attempt) (mc : MmarClient) (req_id : ℕ) (serialized uri : Bytes)
      → mc.custom_cert ≡ []
      → IsOpen mc.conn
      → read_request serialized ≡ request_uri uri
      → url_parses (codes "http://localhost:" ++ mc.config.local_port ++ uri) ≡ true
      → (reply : TunnelMessage) × IsReply req_id
          (forward (codes "http://localhost:" ++ mc.config.local_port ++ uri) serialized)
          reply
        × (process_tunnel_message certificate read_request url_parses forward false attempts mc
              (ok (request_message req_id serialized))
            ≡ some (
                goes_on (record mc {
                  conn = record mc.conn { written = mc.conn.written ++ wire reply };
                })))
  unfolding local_url
  process-forwards attempts mc req_id serialized uri plain o reads parses =
      let f = forward (local_url mc.config uri) serialized in
      (
        reply_message (put_uint32 req_id) f,
        reply_message-IsReply req_id f,
        forwards_reply attempts mc req_id serialized uri plain o reads parses,
      )

  -- A client that is refused a tunnel because of its token or of its name exits when it gets the
  -- server's message.
  pub process-refused :
      (am : Option AuthManager) (token name : Bytes) (clients : Map Bytes ClientTunnel)
      (draws : ℕ → ℕ → ℕ) (attempts : List Attempt) (mc : MmarClient) (msg_type : ℕ) (why : Refusal)
      → (authenticate am token ≡ some (msg_type, why))
        ⊎ (choose_subdomain clients draws name ≡ turned_down msg_type why)
      → process_tunnel_message certificate read_request url_parses forward false attempts mc
          (ok (record { msg_type = msg_type; msg_data = [] }))
        ≡ some (exits 0)
  unfolding process_tunnel_message react
  process-refused am token name clients draws attempts mc msg_type why h =
      elim (refused_types am token name clients draws msg_type why h) [
        | inl (inl e) ↦ rw e refl
        | inl (inr (inl e)) ↦ rw e refl
        | inl (inr (inr e)) ↦ rw e refl
        | inr (inl e) ↦ rw e refl
        | inr (inr e) ↦ rw e refl
      ]
