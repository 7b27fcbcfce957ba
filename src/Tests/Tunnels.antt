-- ===== src/Tests/Tunnels.antt =====
-- internal/server/main.go: tunnels made and closed on a small server.
use mmar.Http.{ServerResponse}
use mmar.Utils.{network_error}
use mmar.Utils.Address.{extract_ip}
use mmar.Protocol.Conn.{send_message, write_conn}
use mmar.Prelude.Text.{to_lower, split}
use mmar.Prelude.Io.{eof, Outcome, ok, err, cut_at}
use mmar.Prelude.Maps.{lookup}
use mmar.Prelude.{
  ℕ, ◌≡◌, refl, arith, Bytes, codes, [], ◌∷◌, none, some, inl, bytes_eq, contains, count,
}
use mmar.Protocol.Types
use mmar.Protocol.{TunnelMessage, serialize_message, is_valid_tunnel_message_type}
use mmar.Server.Loop.{again, process_message, parse_tunnel_data}
use mmar.Server.Loop.Safety.{process_message-Keeps, process_message_no_tunnel}
use mmar.Server.Loop.NoCrash.{process_message-Runs}
use mmar.Server.Invariants.{capped}
use mmar.Server.Keeps.{Runs}
use mmar.Server.Names.{generate_random_id, is_valid_subdomain_name, generate_unique_subdomain}
use mmar.Server.Registry.{created, new_client_tunnel, close_client_tunnel, tunnel_made}
use mmar.Server.Registry.Closing.{Removed, close_client_tunnel-Removed, close_client_tunnel_twice}
use mmar.Server.Registry.Invariant.{
  IsCapped, new_client_tunnel-IsCapped, IsConsistent, here, next, make, Reach-IsConsistent,
}
use mmar.Server.Registry.Overwriting.{drawn_name_overwrites}
use mmar.Server.Registry.Spec.{Made, new_client_tunnel-Made}
use mmar.Server.Requests.{ParsedResponse, parsed}
use mmar.Server.State.{ClientTunnel, MmarServer, running, crashed}
use mmar.Tests.Samples.{
  unnamed, client_abc, empty_server, serving, zeros, server_after, server_made,
}

-- The server after `abc` was made.
abbrev with_abc : MmarServer
with_abc = server_made (new_client_tunnel zeros unnamed (codes "abc") [] empty_server)

abbrev made_abc : ClientTunnel
made_abc = tunnel_made unnamed (codes "abc") [] empty_server

abc-made :
    new_client_tunnel zeros unnamed (codes "abc") [] empty_server
    ≡ running (created made_abc, with_abc)
unfolding new_client_tunnel is_valid_subdomain_name contains to_lower lookup send_message
    serialize_message is_valid_tunnel_message_type write_conn
abc-made = refl

new_client_tunnel-Made_example :
    Made zeros unnamed
      (codes "abc")
      []
      empty_server
      (new_client_tunnel zeros unnamed (codes "abc") [] empty_server)
new_client_tunnel-Made_example = new_client_tunnel-Made zeros unnamed (codes "abc") [] empty_server

empty-IsConsistent : IsConsistent empty_server
unfolding lookup count
empty-IsConsistent = record {
  named = λ id ct h. absurd (cc);
  nonempty = refl;
  counted = λ ip id. refl;
}

Reach-IsConsistent_example : IsConsistent with_abc
Reach-IsConsistent_example =
    Reach-IsConsistent empty-IsConsistent (
      next here
        (make zeros unnamed (codes "abc") [] (created made_abc) (λ e. absurd (cc)) abc-made))

empty-IsCapped : IsCapped empty_server
unfolding lookup
empty-IsCapped ip = omega arith

new_client_tunnel-IsCapped_test : IsCapped with_abc
new_client_tunnel-IsCapped_test =
    new_client_tunnel-IsCapped zeros unnamed (codes "abc") [] empty_server (created made_abc)
      with_abc empty-IsCapped abc-made

abbrev named_by_draw : MmarServer
named_by_draw = record serving { clients = (codes "aaaaaa", client_abc) ∷ [] }

abbrev overwriting : ClientTunnel
overwriting = tunnel_made unnamed (codes "aaaaaa") [] named_by_draw

abbrev overwritten : MmarServer
overwritten = server_made (new_client_tunnel zeros unnamed [] [] named_by_draw)

draw-made :
    new_client_tunnel zeros unnamed [] [] named_by_draw ≡ running (created overwriting, overwritten)
unfolding new_client_tunnel generate_unique_subdomain lookup contains generate_random_id extract_ip
    cut_at send_message serialize_message is_valid_tunnel_message_type write_conn
draw-made = refl

no-empty-name : lookup [] named_by_draw.clients ≡ none
unfolding lookup
no-empty-name = refl

draw-taken : lookup (generate_random_id (zeros 0)) named_by_draw.clients ≡ some client_abc
unfolding lookup generate_random_id
draw-taken = refl

drawn_name_overwrites_example :
    (lookup (generate_random_id (zeros 0)) overwritten.clients ≡ some overwriting)
    × (overwriting.conn ≡ unnamed.conn)
drawn_name_overwrites_example =
    drawn_name_overwrites zeros unnamed [] named_by_draw client_abc overwriting overwritten
      no-empty-name draw-taken draw-made

close_client_tunnel-Removed_example :
    (s : MmarServer) × (close_client_tunnel client_abc serving ≡ running s)
    × Removed client_abc serving s
close_client_tunnel-Removed_example = close_client_tunnel-Removed client_abc serving refl

abbrev closed : MmarServer
closed = server_after (close_client_tunnel client_abc serving)

abc-closed : close_client_tunnel client_abc serving ≡ running closed
unfolding close_client_tunnel contains lookup extract_ip cut_at
abc-closed = refl

close_client_tunnel_twice_test : close_client_tunnel client_abc closed ≡ crashed
close_client_tunnel_twice_test =
    close_client_tunnel_twice client_abc serving closed closed abc-closed refl

-- Stand-ins for `net/http`: every response reads as a 200 without headers, and is written as its
-- body.
abbrev read_response : ℕ → Bytes → ParsedResponse
read_response k s = parsed 200 [] (some s)

abbrev write_response : ServerResponse → Bytes
write_response r = r.body

abbrev create_abc : TunnelMessage
create_abc = record { msg_type = Types.create_tunnel; msg_data = codes "abc|" }

abc-created :
    process_message zeros read_response write_response none unnamed (ok create_abc) empty_server
    ≡ running (again (some made_abc), with_abc)
unfolding process_message new_client_tunnel parse_tunnel_data split is_valid_subdomain_name contains
    to_lower lookup send_message serialize_message is_valid_tunnel_message_type write_conn
abc-created = refl

process_message-Keeps_test : IsCapped with_abc
process_message-Keeps_test =
    process_message-Keeps zeros read_response write_response capped none unnamed (ok create_abc)
      empty_server (again (some made_abc)) with_abc tt empty-IsCapped abc-created

abbrev ok_response : Outcome TunnelMessage
ok_response = ok (record { msg_type = Types.response; msg_data = 9 ∷ 0 ∷ 0 ∷ 0 ∷ codes "hi" })

process_message-Runs_test : Runs (
    process_message zeros read_response write_response
      (some client_abc)
      client_abc.tunnel
      ok_response
      serving)
process_message-Runs_test =
    process_message-Runs zeros read_response write_response client_abc client_abc.tunnel ok_response
      serving refl (λ e. absurd (cc))

process_message_no_tunnel_example :
    process_message zeros read_response write_response none unnamed (err eof) empty_server ≡ crashed
unfolding network_error
process_message_no_tunnel_example =
    process_message_no_tunnel zeros read_response write_response unnamed (err eof) empty_server
      (inl (eof, refl, refl))
