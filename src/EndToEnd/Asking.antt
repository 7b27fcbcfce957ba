-- ===== src/EndToEnd/Asking.antt =====
-- internal/client/main.go and internal/server/main.go together: how a client asks for its tunnel, and
-- how it leaves.
use mmar.Http.{ServerResponse}
use mmar.Client.Start.{disconnect_msg, shut_down}
use mmar.Client.{MmarClient}
use mmar.EndToEnd.{receive-wire}
use mmar.Prelude.Io.{Error}
use mmar.Prelude.{ℕ, ◌≡◌, refl, Bytes, ◌∷◌, ◌++◌, false, some, arith}
use mmar.Protocol.Conn.{Conn, Tunnel, IsOpen, send_open, receive_message}
use mmar.Protocol.Framing.{wire}
use mmar.Server.Loop.{stop, process_message}
use mmar.Server.Registry.Closing.{
  Removed, close_client_tunnel-Removed, close_client_tunnel_or_conn-named,
}
use mmar.Server.Requests.{ParsedResponse}
use mmar.Server.State.{ClientTunnel, MmarServer, running}

module _ (draws : ℕ → ℕ → ℕ) (read_response : ℕ → Bytes → ParsedResponse)
    (write_response : ServerResponse → Bytes) where
  -- A client that is told to stop says so over its open connection, behind what it wrote before, and
  -- the server, when it receives that, takes the client's tunnel out of the tables and ends the loop of
  -- the connection, if the tunnel has a name and its channels are open.
  pub shut_down-closes :
      (mc : MmarClient) (ct : ClientTunnel) (t : Tunnel) (s : MmarServer) (e : Error) (c : ℕ)
      (id : Bytes)
      → IsOpen mc.conn
      → ct.id ≡ c ∷ id
      → (s.shareds ct.shared).channels_closed ≡ false
      → (out : Bytes) × (s' : MmarServer) × ((shut_down mc).conn.written ≡ mc.conn.written ++ out)
        × (process_message draws read_response write_response
              (some ct)
              t
              (receive_message (record { pending = out; fails_with = e })).0
              s
            ≡ running (stop, s'))
        × Removed ct s s'
  unfolding shut_down process_message
  shut_down-closes mc ct t s e c id o named still_open =
      let (s', closes, removed) = close_client_tunnel-Removed ct s still_open in
      (
        wire disconnect_msg,
        s',
        rw (send_open disconnect_msg mc.conn o (omega arith)) refl,
        rw
            (
              receive-wire disconnect_msg e (omega arith) (omega arith),
              close_client_tunnel_or_conn-named ct t s named,
              closes,
            )
            refl,
        removed,
      )
