-- ===== src/Server/Loop/Spawning.antt =====
-- internal/server/main.go: the messages whose handling `processTunnelMessages` leaves to a goroutine.
use mmar.Http.{ServerResponse}
use mmar.Prelude.Io.{ok}
use mmar.Prelude.{ℕ, ◌≡◌, Bytes, Option, some, arith}
use mmar.Protocol.Conn.{Tunnel}
use mmar.Protocol.{TunnelMessage}
use mmar.Server.Loop.{then_again, response_of, process_message, dispatch, failed_response}
use mmar.Server.Requests.{ParsedResponse, handle_response_messages}
use mmar.Server.State.{ClientTunnel, MmarServer}

-- A round whose message is handed to a goroutine does what that goroutine does, and goes on.
pub process_message-response_of :
    (draws : ℕ → ℕ → ℕ) (read_response : ℕ → Bytes → ParsedResponse)
    (write_response : ServerResponse → Bytes) (ct : Option ClientTunnel) (t : Tunnel)
    (msg m : TunnelMessage) (s : MmarServer)
    → response_of write_response msg ≡ some m
    → process_message draws read_response write_response ct t (ok msg) s
      ≡ then_again ct (handle_response_messages read_response ct m s)
unfolding process_message dispatch failed_response response_of
process_message-response_of draws read_response write_response ct t msg m s h = ground arith
