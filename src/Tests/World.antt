-- ===== src/Tests/World.antt =====
-- internal/server/main.go: a history of a server, from its start to an answered request.
use mmar.Utils.{extract_subdomain}
use mmar.Server.Names.{is_valid_subdomain_name}
use mmar.Prelude.Text.{split, to_lower, join}
use mmar.Auth.{ApiKeyConfig}
use mmar.Http.{ServerResponse, fresh_writer}
use mmar.Prelude.Io.{ok, err, eof}
use mmar.Prelude.Maps.{lookup, insert, delete, insert}
use mmar.Prelude.{
  ℕ, ◌≡◌, ◌≢◌, refl, arith, Bytes, codes, List, [], ◌∷◌, ◌++◌, Option, none, some, ◌⊎◌, take, erase,
  bytes_eq, nat_eq, contains,
}
use mmar.Constants.{request_id_buff_size}
use mmar.Protocol.Conn.{Conn, send_message, write_conn, reserved_subdomain}
use mmar.Protocol.Types
use mmar.Protocol.{TunnelMessage, serialize_message, is_valid_tunnel_message_type}
use mmar.Server.Loop.Leak.{create_message, Listed, second_tunnel_leaks}
use mmar.Server.Loop.{response_of, Next, again, process_message, parse_tunnel_data}
use mmar.Server.Registry.Invariant.{IsCapped}
use mmar.Server.Registry.{tunnel_made, ip_of, new_client_tunnel}
use mmar.Server.Registry.Keyed.{HasKey}
use mmar.Server.RequestId.{generate_unique_request_id, put_uint32, uint32}
use mmar.Server.Requests.{tunneled, with_request, handle_response_messages}
use mmar.Server.Serialize.{serialize_request, read_body}
use mmar.Server.Abstract.Promises.{IsProper}
use mmar.Server.Start.Registered.{run-IsProper}
use mmar.Server.Start.History.{run-IsCapped, run-HasKey, run_respond-own, run-Answer}
use mmar.Server.Start.{ConfigOptions, initial_auth_manager, run}
use mmar.Server.Cancel.{cancel}
use mmar.Utils.{network_error}
use mmar.Utils.Address.{extract_ip}
use mmar.Prelude.Io.{cut_at}
use mmar.Prelude.Decimal.{itoa, digits}
use mmar.Server.Registry.{
  close_client_tunnel, close_client_tunnel_or_conn, tunnel_limited_ip, authenticate,
}
use mmar.Server.State.{
  OutgoingResponse, answered, context_canceled, ClientTunnel, MmarServer, update, Running, running,
  crashed, waiting,
}
use mmar.Server.World.Routing.{Through}
use mmar.Server.World.Provenance.{Answer}
use mmar.Server.World.Settled.{Reach-settled}
use mmar.Server.World.{
  World, reading_from, preparing, underway, Step, accept, spawn, respond, round, look_up, send,
  give_up, Reach, here, next,
}
use mmar.Tests.Requests.{no_headers, nines, get, whole}
use mmar.Tests.Samples.{conn, unnamed, zeros, server_after}

abbrev pub no_keys : Bytes → Option (List ApiKeyConfig)
no_keys file = none

abbrev pub unmade : ℕ → Conn
unmade c = conn

abbrev pub config : ConfigOptions
config = record { http_port = codes "3376"; tcp_port = codes "6673"; api_keys_file = [] }

abbrev pub write_response : ServerResponse → Bytes
write_response r = r.body

abbrev pub server_next : Running (Next × MmarServer) → MmarServer
server_next (running (n, s)) = s
server_next crashed = (run no_keys unmade config).server

abbrev pub started : World
started = run no_keys unmade config

abbrev pub accepted : World
accepted = record started {
  server = record started.server { conns = update started.server.conns 0 conn };
  loops = update started.loops 0 (reading_from unnamed none);
}

abbrev pub named_abc : ClientTunnel
named_abc = tunnel_made unnamed (codes "abc") [] started.server

abbrev pub serving_abc : World
serving_abc = record accepted {
  server = server_next (
      process_message zeros whole write_response none unnamed (ok (create_message (codes "abc")))
        accepted.server);
  loops = update accepted.loops 0 (reading_from unnamed (some named_abc));
}

abbrev looked_up : World
looked_up = record serving_abc {
  handlers = update serving_abc.handlers 8 (preparing named_abc get fresh_writer);
}

abbrev sent_9 : World
sent_9 = record looked_up {
  server =
      (with_request no_headers nines 3 named_abc 8 fresh_writer looked_up.server
        (serialize_request no_headers get)).1;
  handlers = update looked_up.handlers 8 (underway named_abc 9);
}

pub not_spawned :
    (msg : TunnelMessage)
    → create_message (codes "abc") ≡ msg
    → response_of write_response msg ≡ none
unfolding response_of
not_spawned msg same = rw (← same) refl

create_abc : Step whole write_response no_headers accepted serving_abc
unfolding process_message new_client_tunnel run parse_tunnel_data split is_valid_subdomain_name
    contains to_lower lookup send_message serialize_message is_valid_tunnel_message_type write_conn
create_abc =
    round zeros 0 unnamed none (ok (create_message (codes "abc"))) (again (some named_abc))
      serving_abc.server refl (λ msg e. not_spawned msg (cc)) refl

look_up_abc : Step whole write_response no_headers serving_abc looked_up
unfolding run extract_subdomain to_lower join split lookup process_message new_client_tunnel
    parse_tunnel_data is_valid_subdomain_name contains send_message serialize_message
    is_valid_tunnel_message_type write_conn insert
look_up_abc = look_up 8 get fresh_writer named_abc refl refl refl

send_abc : Step whole write_response no_headers looked_up sent_9
unfolding with_request serialize_request read_body generate_unique_request_id lookup process_message
    new_client_tunnel run parse_tunnel_data split is_valid_subdomain_name contains to_lower
    send_message serialize_message is_valid_tunnel_message_type write_conn
send_abc = send nines 3 8 named_abc get fresh_writer (tunneled named_abc 9) sent_9.server refl refl

history : Reach whole write_response no_headers started sent_9
unfolding run
history = next (next (next (next here (accept 0 7 conn refl)) create_abc) look_up_abc) send_abc

run-IsCapped_example : IsCapped sent_9.server
run-IsCapped_example = run-IsCapped no_keys unmade config whole write_response no_headers history

abbrev hi : TunnelMessage
hi = record { msg_type = Types.response; msg_data = put_uint32 9 ++ codes "hi" }

abbrev spawned : World
spawned = record sent_9 { goroutines = (some named_abc, hi) ∷ sent_9.goroutines }

abbrev answered_9 : World
answered_9 = record spawned {
  server = server_after (handle_response_messages whole (some named_abc) hi spawned.server);
  goroutines = [] ++ sent_9.goroutines;
}

run_respond-own_example :
    (answered_9.server.exchanges 8 ≡ sent_9.server.exchanges 8)
    ⊎ Through (sent_9.handlers 8) 0 (uint32 (take request_id_buff_size hi.msg_data))
unfolding handle_response_messages put_uint32 uint32 with_request serialize_request read_body
    generate_unique_request_id lookup process_message new_client_tunnel run parse_tunnel_data split
    is_valid_subdomain_name contains to_lower send_message serialize_message
    is_valid_tunnel_message_type write_conn insert
run_respond-own_example =
    run_respond-own no_keys unmade config whole write_response no_headers named_abc hi
      answered_9.server 8 history refl

abbrev gone : World
gone = record answered_9 { server = cancel 8 context_canceled answered_9.server }

go_away : Step whole write_response no_headers answered_9 gone
go_away = give_up 8 named_abc 9 refl

answered_settled : (r : OutgoingResponse) → answered r ≢ waiting
answered_settled r e = cc

Reach-settled_example :
    Through (gone.handlers 8) 0 9
    × ((gone.server.exchanges 8).progress ≡ (answered_9.server.exchanges 8).progress)
unfolding handle_response_messages put_uint32 uint32 with_request serialize_request read_body
    generate_unique_request_id lookup process_message new_client_tunnel run parse_tunnel_data split
    is_valid_subdomain_name contains to_lower send_message serialize_message
    is_valid_tunnel_message_type write_conn insert
Reach-settled_example =
    Reach-settled whole write_response no_headers 8 0 9 (next here go_away) (refl, refl)
      (answered_settled (record { status_code = 200; body = codes "hi" }))

abbrev named_xyz : ClientTunnel
named_xyz = tunnel_made unnamed (codes "xyz") [] serving_abc.server

abbrev with_two : MmarServer
with_two = server_next (
    process_message zeros whole write_response (some named_abc) unnamed
      (ok (create_message (codes "xyz"))) serving_abc.server)

abbrev broken : MmarServer
broken =
    server_next
      (process_message zeros whole write_response (some named_xyz) unnamed (err eof) with_two)

different_names : named_xyz.id ≢ named_abc.id
different_names e = ground (arith, e)

second_tunnel_leaks_example : Listed named_abc (ip_of accepted.server 0) broken
unfolding network_error close_client_tunnel close_client_tunnel_or_conn extract_ip cut_at itoa
    digits insert delete erase tunnel_limited_ip authenticate with_request serialize_request
    read_body generate_unique_request_id lookup process_message new_client_tunnel run
    parse_tunnel_data split is_valid_subdomain_name contains to_lower send_message serialize_message
    is_valid_tunnel_message_type write_conn reserved_subdomain
second_tunnel_leaks_example =
    second_tunnel_leaks zeros whole write_response unnamed none (codes "abc") (codes "xyz")
      accepted.server serving_abc.server with_two broken named_abc named_xyz eof refl refl
      different_names refl refl

run-HasKey_test : HasKey none []
unfolding initial_auth_manager handle_response_messages with_request serialize_request read_body
    generate_unique_request_id lookup process_message new_client_tunnel run parse_tunnel_data split
    is_valid_subdomain_name contains to_lower send_message serialize_message
    is_valid_tunnel_message_type write_conn insert
run-HasKey_test =
    run-HasKey no_keys unmade config whole write_response no_headers (codes "abc") named_abc history
      refl

run-IsProper_example : IsProper none (codes "abc") named_abc
unfolding initial_auth_manager handle_response_messages with_request serialize_request read_body
    generate_unique_request_id lookup process_message new_client_tunnel run parse_tunnel_data split
    is_valid_subdomain_name contains to_lower send_message serialize_message
    is_valid_tunnel_message_type write_conn insert
run-IsProper_example =
    run-IsProper no_keys unmade config whole write_response no_headers (codes "abc") named_abc
      history refl

spawn_hi : Step whole write_response no_headers sent_9 spawned
unfolding response_of handle_response_messages put_uint32 uint32 with_request serialize_request
    read_body generate_unique_request_id lookup process_message new_client_tunnel run
    parse_tunnel_data split is_valid_subdomain_name contains to_lower send_message serialize_message
    is_valid_tunnel_message_type write_conn insert
spawn_hi = spawn 0 unnamed (some named_abc) hi hi refl refl

respond_hi : Step whole write_response no_headers spawned answered_9
unfolding handle_response_messages put_uint32 uint32 with_request serialize_request read_body
    generate_unique_request_id lookup process_message new_client_tunnel run parse_tunnel_data split
    is_valid_subdomain_name contains to_lower send_message serialize_message
    is_valid_tunnel_message_type write_conn insert
respond_hi = respond [] sent_9.goroutines (some named_abc) hi answered_9.server refl refl

answered_history : Reach whole write_response no_headers started answered_9
unfolding handle_response_messages put_uint32 uint32 with_request serialize_request read_body
    generate_unique_request_id lookup process_message new_client_tunnel run parse_tunnel_data split
    is_valid_subdomain_name contains to_lower send_message serialize_message
    is_valid_tunnel_message_type write_conn insert
answered_history = next (next history spawn_hi) respond_hi

run-Answer_example :
    Answer whole write_response no_headers answered_history 8
      (record { status_code = 200; body = codes "hi" })
unfolding handle_response_messages put_uint32 uint32 with_request serialize_request read_body
    generate_unique_request_id lookup process_message new_client_tunnel run parse_tunnel_data split
    is_valid_subdomain_name contains to_lower send_message serialize_message
    is_valid_tunnel_message_type write_conn insert
run-Answer_example =
    run-Answer no_keys unmade config whole write_response no_headers 8
      (record { status_code = 200; body = codes "hi" }) answered_history refl
