-- ===== src/Protocol/Conn.antt =====
-- internal/protocol/main.go: a tunnel's connection, and the
-- messages that are sent and received over it. The network decides when a write fails: that is a
-- field of the connection. What was written is what the other side reads.
use mathlib.Core.Path.{subst, ◌∙◌}
use mmar.Prelude.Io.{Error, Outcome, ok, err, panic, err_closed, other, Read, ◌>>=◌, lift}
use mmar.Prelude.{
  ℕ, zero, suc, ◌≤◌, ◌≡◌, refl, Bool, true, false, Bytes, List, [], ◌∷◌, ◌++◌, Option, none, some,
  arith, append_assoc, append-nil, All, length, if◌then◌else◌,
}
use mmar.Protocol.{TunnelMessage, serialize_message, deserialize_message, max_alloc}
use mmar.Protocol.Framing.{IsValidType, wire, serialize-wire, deserialize-serialize}

pub record Conn : Type 0 where
  pub remote_addr : Bytes
  pub written : Bytes
  pub write_fails : Option Error
  pub write_closed : Bool
  pub closed : Bool

pub record Tunnel : Type 0 where
  pub id : Bytes
  -- the key of the connection in the table of connections
  pub conn : ℕ
  pub created_on : ℕ

unfoldable pub reserved_subdomain : Tunnel → Bool
reserved_subdomain t = elim t.id [ [] ↦ false | c ∷ cs ↦ true ]

write_now : Option Error → Bytes → Conn → Option Error × Conn
write_now none s c = (none, record c { written = c.written ++ s })
write_now (some e) s c = (some e, c)

-- `Conn.Write`, with its error.
unfoldable pub write_conn : Bytes → Conn → Option Error × Conn
unfolding write_now
write_conn s c =
    if c.closed
    then (some err_closed, c)
    else if c.write_closed
    then (some other, c)
    else write_now c.write_fails s c

send_serialized : Outcome Bytes → Conn → Option Error × Conn
send_serialized (ok s) c = write_conn s c
send_serialized (err e) c = (some e, c)
send_serialized panic c = (some other, c)

unfoldable pub send_message : TunnelMessage → Conn → Option Error × Conn
unfolding send_serialized
send_message m c = send_serialized (serialize_message m) c

unfoldable pub receive_message : Read TunnelMessage
receive_message = deserialize_message

-- `(*net.TCPConn).CloseWrite` and `Close`.
unfoldable pub close_write : Conn → Conn
close_write c = record c { write_closed = true }

unfoldable pub close_conn : Conn → Conn
close_conn c = record c { closed = true }

-- Messages sent in a row, the errors not looked at.
unfoldable pub send_all : List TunnelMessage → Conn → Conn
send_all [] c = c
send_all (m ∷ ms) c = send_all ms (send_message m c).1

-- So many messages received in a row.
unfoldable pub receive_all : ℕ → Read (List TunnelMessage)
receive_all zero = lift (ok [])
receive_all (suc n) = do m ← receive_message; ms ← receive_all n; lift (ok (m ∷ ms))

-- A connection on which writes succeed.
abbrev pub IsOpen : Conn → Type 0
IsOpen c = (c.closed ≡ false) × (c.write_closed ≡ false) × (c.write_fails ≡ none)

-- A message that its type lets be written, and whose data the reader can hold.
abbrev Fits : TunnelMessage → Type 0
Fits m = IsValidType m.msg_type × (length m.msg_data ≤ max_alloc)

abbrev wires : List TunnelMessage → Bytes
wires [] = []
wires (m ∷ ms) = wire m ++ wires ms

pub send_open :
    (m : TunnelMessage) (c : Conn)
    → IsOpen c
    → IsValidType m.msg_type
    → send_message m c ≡ (none, record c { written = c.written ++ wire m })
unfolding send_message write_conn
send_open m c o v = ground (arith, serialize-wire m v)

send_all-wires :
    (ms : List TunnelMessage) (c : Conn)
    → IsOpen c
    → All Fits ms
    → (send_all ms c).written ≡ c.written ++ wires ms
unfolding send_all
send_all-wires [] c o h = rw append-nil
send_all-wires (m ∷ ms) c o h =
    rw (send_open m c o h.0.0, send_all)
      (send_all-wires ms _ o h.1 ∙ append_assoc c.written (wire m) (wires ms))

receive_all-wires :
    (ms : List TunnelMessage) (rest : Bytes) (e : Error)
    → All Fits ms
    → receive_all (length ms) (record { pending = wires ms ++ rest; fails_with = e })
      ≡ (ok ms, record { pending = rest; fails_with = e })
unfolding receive_all receive_message
receive_all-wires [] rest e h = refl
receive_all-wires (m ∷ ms) rest e h =
    rw
      (
        append_assoc,
        deserialize-serialize m (wire m) (wires ms ++ rest) e (serialize-wire m h.0.0) h.0.1,
      )
      (rw (receive_all-wires ms rest e h.1))

-- Messages sent in a row over a connection on which nothing was written before, and on which
-- writes succeed, are received in their order, and nothing is left over.
pub receive_all-send_all :
    (ms : List TunnelMessage) (c : Conn) (e : Error)
    → IsOpen c
    → c.written ≡ []
    → All Fits ms
    → receive_all (length ms) (record { pending = (send_all ms c).written; fails_with = e })
      ≡ (ok ms, record { pending = []; fails_with = e })
receive_all-send_all ms c e o start h =
    rw (send_all-wires ms c o h, start)
      (subst
        (λ s.
          receive_all (length ms) (record { pending = s; fails_with = e })
          ≡ (ok ms, record { pending = []; fails_with = e }))
        (append-nil (wires ms)) (receive_all-wires ms [] e h))

-- What is sent in a row over a connection on which writes succeed stands behind what was written
-- there before, and is received in its order, with nothing left over.
pub send_all-received :
    (ms : List TunnelMessage) (c : Conn) (e : Error)
    → IsOpen c
    → All Fits ms
    → (out : Bytes) × ((send_all ms c).written ≡ c.written ++ out)
      × (receive_all (length ms) (record { pending = out; fails_with = e })
          ≡ (ok ms, record { pending = []; fails_with = e }))
send_all-received ms c e o h = (
  wires ms,
  send_all-wires ms c o h,
  subst
      (λ s.
        receive_all (length ms) (record { pending = s; fails_with = e })
        ≡ (ok ms, record { pending = []; fails_with = e }))
      (append-nil (wires ms)) (receive_all-wires ms [] e h),
)
