-- ===== src/Tests/Asking.antt =====
-- internal/client/main.go and internal/server/main.go together: a client comes and goes.
use mmar.Client.Start.{shut_down}
use mmar.EndToEnd.Asking.{shut_down-closes}
use mmar.Prelude.Io.{eof}
use mmar.Prelude.{◌≡◌, refl, ◌++◌, Bytes, codes, Option, some}
use mmar.Protocol.Conn.{Conn, receive_message}
use mmar.Server.Loop.{stop, process_message}
use mmar.Server.Registry.Closing.{Removed}
use mmar.Server.State.{MmarServer, running}
use mmar.Tests.Client.{client, read_response, write_response}
use mmar.Tests.Samples.{client_abc, conn, serving, zeros}

abbrev dial : Bytes → Bytes → Option Conn
dial host port = some conn

shut_down-closes_example :
    (out : Bytes) × (s : MmarServer) × ((shut_down client).conn.written
      ≡ client.conn.written ++ out)
    × (process_message zeros read_response write_response
          (some client_abc)
          client_abc.tunnel
          (receive_message (record { pending = out; fails_with = eof })).0
          serving
        ≡ running (stop, s))
    × Removed client_abc serving s
shut_down-closes_example =
    shut_down-closes zeros read_response write_response client client_abc client_abc.tunnel serving
      eof b'a' (codes "bc") (refl, refl, refl) refl refl
