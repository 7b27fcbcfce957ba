-- ===== src/Tests/Owning.antt =====
-- internal/server/main.go: another connection asks for the name of a client.
use mmar.Prelude.Io.{ok}
use mmar.Prelude.Maps.{lookup, insert}
use mmar.Prelude.Text.{split, to_lower}
use mmar.Prelude.{◌≡◌, refl, arith, codes, [], none, some, bytes_eq, contains}
use mmar.Protocol.Conn.{Tunnel, send_message, write_conn}
use mmar.Protocol.{serialize_message, is_valid_tunnel_message_type}
use mmar.Server.Loop.Leak.{create_message}
use mmar.Server.Loop.{stop, process_message, parse_tunnel_data}
use mmar.Server.Names.{is_valid_subdomain_name}
use mmar.Server.Registry.{new_client_tunnel}
use mmar.Server.Start.{run}
use mmar.Server.State.{update}
use mmar.Server.World.Owning.{Reach-owned}
use mmar.Server.World.{World, reading_from, over, accept, round, here, next}
use mmar.Tests.Requests.{no_headers, whole}
use mmar.Tests.Samples.{conn, zeros}
use mmar.Tests.World.{serving_abc, named_abc, server_next, write_response, not_spawned}

abbrev rival : Tunnel
rival = record { id = []; conn = 1; created_on = 8 }

abbrev rival_accepted : World
rival_accepted = record serving_abc {
  server = record serving_abc.server { conns = update serving_abc.server.conns 1 conn };
  loops = update serving_abc.loops 1 (reading_from rival none);
}

abbrev rival_refused : World
rival_refused = record rival_accepted {
  server = server_next (
      process_message zeros whole write_response none rival (ok (create_message (codes "abc")))
        rival_accepted.server);
  loops = update rival_accepted.loops 1 over;
}

Reach-owned_example : lookup (codes "abc") rival_refused.server.clients ≡ some named_abc
unfolding process_message new_client_tunnel run parse_tunnel_data split is_valid_subdomain_name
    contains to_lower lookup send_message serialize_message is_valid_tunnel_message_type write_conn
    insert
Reach-owned_example =
    Reach-owned (codes "abc") named_abc (λ e. absurd (omega (arith, e))) whole write_response
      no_headers {w = serving_abc} {v = rival_refused}
      (next {u = rival_accepted} (next here (accept 1 8 conn refl)) (
        round zeros 1 rival none (ok (create_message (codes "abc"))) stop rival_refused.server refl
          (λ msg e. not_spawned msg (cc)) refl))
      ((tt, tt), tt) refl
