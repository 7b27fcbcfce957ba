-- ===== src/EndToEnd/Session.antt =====
-- internal/client/main.go and internal/protocol/main.go: requests in a row, over one connection.
use mmar.Client.Forwarding.{IsReply, forwards_reply, reply-IsValidType, reply_message-IsReply}
use mmar.Client.{
  MmarClient, goes_on, Certificate, ParsedRequest, request_uri, Forwarded, local_url, reply_message,
}
use mmar.Client.Rounds.{Round, after_round, process_tunnel_messages}
use mmar.Prelude.Io.{Error, ok}
use mmar.Prelude.{
  ℕ, Bool, ◌≤◌, ◌≡◌, refl, ap, sym, ◌∙◌, true, false, Bytes, codes, List, [], ◌∷◌, ◌++◌, some,
  arith, All, length,
}
use mmar.Protocol.Conn.{Conn, IsOpen, send_open, send_all, receive_all, send_all-received}
use mmar.Protocol.{TunnelMessage, max_alloc}
use mmar.Protocol.Framing.{wire, IsValidType}
use mmar.Server.RequestId.{put_uint32}
use mmar.Server.Requests.{request_message}

-- A request that the server has sent: its id, its text, and the URI that the client reads in it.
pub record Sent : Type 0 where
  pub req_id : ℕ
  pub serialized : Bytes
  pub uri : Bytes

abbrev pub messages : List Sent → List TunnelMessage
messages [] = []
messages (r ∷ requests) = request_message r.req_id r.serialized ∷ messages requests

abbrev pub rounds : List TunnelMessage → List Round
rounds [] = []
rounds (m ∷ ms) =
    record { done = false; cancelled = false; attempts = []; received = ok m } ∷ rounds ms

module _ (certificate : Bytes → Certificate) (read_request : Bytes → ParsedRequest)
    (url_parses : Bytes → Bool) (forward : Bytes → Bytes → Forwarded) (mc : MmarClient) where
  abbrev pub reply : Sent → TunnelMessage
  reply r = reply_message (put_uint32 r.req_id) (forward (local_url mc.config r.uri) r.serialized)

  abbrev pub replies : List Sent → List TunnelMessage
  replies [] = []
  replies (r ∷ requests) = reply r ∷ replies requests

  -- The client reads the request and its URL, and message and reply fit into memory.
  pub record Handles (r : Sent) : Type 0 where
    pub reads : read_request r.serialized ≡ request_uri r.uri
    pub parses : url_parses (local_url mc.config r.uri) ≡ true
    pub fits : length (request_message r.req_id r.serialized).msg_data ≤ max_alloc
    pub reply_fits : length (reply r).msg_data ≤ max_alloc

  process-replies :
      (c : Conn) (requests : List Sent)
      → mc.custom_cert ≡ []
      → IsOpen c
      → All Handles requests
      → process_tunnel_messages certificate read_request url_parses forward
          (rounds (messages requests))
          (record mc { conn = c })
        ≡ some (goes_on (record mc { conn = send_all (replies requests) c }))
  unfolding process_tunnel_messages send_all
  process-replies c [] plain o h = refl
  process-replies c (r ∷ requests) plain o h =
      ap
        (λ x. after_round x (
          process_tunnel_messages certificate read_request url_parses forward
            (rounds (messages requests))))
        (forwards_reply certificate read_request url_parses forward [] (record mc { conn = c })
          r.req_id r.serialized r.uri plain o h.0.reads h.0.parses)
      ∙ process-replies (record c { written = c.written ++ wire (reply r) }) requests plain o h.1
      ∙ ap (λ x. some (goes_on (record mc { conn = send_all (replies requests) x.1 })))
          (sym (
            send_open (reply r) c o (
              reply-IsValidType (put_uint32 r.req_id)
                (forward (local_url mc.config r.uri) r.serialized))))

  messages-Fit :
      (requests : List Sent)
      → All Handles requests
      → All (λ m. IsValidType m.msg_type × (length m.msg_data ≤ max_alloc)) (messages requests)
  messages-Fit [] h = tt
  messages-Fit (r ∷ requests) h = ((omega arith, h.0.fits), messages-Fit requests h.1)

  replies-Fit :
      (requests : List Sent)
      → All Handles requests
      → All (λ m. IsValidType m.msg_type × (length m.msg_data ≤ max_alloc)) (replies requests)
  replies-Fit [] h = tt
  replies-Fit (r ∷ requests) h = (
    (
      reply-IsValidType (put_uint32 r.req_id) (forward (local_url mc.config r.uri) r.serialized),
      h.0.reply_fits,
    ),
    replies-Fit requests h.1,
  )

  -- One reply for each request, by what the server at the client's port gives for it.
  abbrev pub AreReplies : List Sent → List TunnelMessage → Type 0
  AreReplies [] [] = Unit
  AreReplies [] (m ∷ ms) = ⊥
  AreReplies (r ∷ requests) [] = ⊥
  AreReplies (r ∷ requests) (m ∷ ms) =
      IsReply r.req_id
        (forward (codes "http://localhost:" ++ mc.config.local_port ++ r.uri) r.serialized) m
      × AreReplies requests ms

  replies-AreReplies : (requests : List Sent) → AreReplies requests (replies requests)
  unfolding local_url
  replies-AreReplies [] = tt
  replies-AreReplies (r ∷ requests) = (
    reply_message-IsReply r.req_id (forward (local_url mc.config r.uri) r.serialized),
    replies-AreReplies requests,
  )

  -- What the two ends of a connection make of requests in a row: the bytes that the server writes
  -- behind what it wrote before, what the client receives of them, the client after it has handled
  -- that, the bytes that it writes behind what it wrote before, and what the server receives of them.
  pub record IsServed (requests : List Sent) (server_conn : Conn) (e : Error) : Type 0 where
    pub to_client : Bytes
    pub client : MmarClient
    pub to_server : Bytes
    pub answers : List TunnelMessage
    pub sent : (send_all (messages requests) server_conn).written ≡ server_conn.written ++ to_client
    pub received :
        receive_all (length (messages requests)) (record { pending = to_client; fails_with = e })
        ≡ (ok (messages requests), record { pending = []; fails_with = e })
    pub handled :
        process_tunnel_messages certificate read_request url_parses forward
          (rounds (messages requests))
          mc
        ≡ some (goes_on client)
    pub sent_back : client.conn.written ≡ mc.conn.written ++ to_server
    pub returned :
        receive_all (length answers) (record { pending = to_server; fails_with = e })
        ≡ (ok answers, record { pending = []; fails_with = e })
    pub are_replies : AreReplies requests answers

  -- Any number of requests that the server sends in a row, over a connection on which writes succeed,
  -- reach the client in their order, and for each the server receives one reply, behind what went over
  -- the connection before: the local server's response, or the kind of its failure, with the request's
  -- id in front. The conditions: the client needs no certificate, reads each request and its URL, and
  -- each message and reply fits into memory; a request has its effect before the next is received.
  pub session-IsServed :
      (requests : List Sent) (server_conn : Conn) (e : Error)
      → mc.custom_cert ≡ []
      → IsOpen mc.conn
      → IsOpen server_conn
      → All Handles requests
      → IsServed requests server_conn e
  session-IsServed requests server_conn e plain o server_open h =
      let (there, sent, received) =
        send_all-received (messages requests) server_conn e server_open (messages-Fit requests h) in
      let (back, sent_back, returned) =
        send_all-received (replies requests) mc.conn e o (replies-Fit requests h) in
      record {
        to_client = there;
        client = record mc { conn = send_all (replies requests) mc.conn };
        to_server = back;
        answers = replies requests;
        sent = sent;
        received = received;
        handled = process-replies mc.conn requests plain o h;
        sent_back = sent_back;
        returned = returned;
        are_replies = replies-AreReplies requests;
      }
