-- ===== src/Tests/Process.antt =====
-- internal/server/main.go: a process whose first connection breaks before it has a tunnel.
use mmar.Prelude.Io.{err, eof}
use mmar.Prelude.{refl, none, some}
use mmar.Server.Loop.{process_message}
use mmar.Server.Start.Ending.{PanicCause, Lives-PanicCause}
use mmar.Server.Start.Process.{
  Process, serving, starting, panicked, start, Panics, round_panics, Step, listens, works, Lives,
  begins, goes_on,
}
use mmar.Server.Start.Process
use mmar.Server.Start.{run}
use mmar.Server.Registry.{close_client_tunnel_or_conn}
use mmar.Server.World.{accept}
use mmar.Tests.Requests.{no_headers, whole}
use mmar.Tests.Samples.{conn, unnamed, zeros}
use mmar.Tests.World.{accepted, config, no_keys, unmade, write_response}
use mmar.Utils.{network_error}

abbrev begun : Process
begun = start no_keys unmade config

abbrev listening : Process
listening = record begun { tcp = serving }

abbrev connected : Process
connected = record listening { world = accepted }

abbrev broken : Process
broken = record connected { exit = some panicked }

breaks : Panics whole write_response no_headers accepted
unfolding run process_message close_client_tunnel_or_conn network_error
breaks = round_panics zeros 0 unnamed none (err eof) refl refl

life : Lives whole write_response no_headers begun broken
unfolding start run
life =
    goes_on (goes_on (goes_on begins (listens refl refl)) (works (accept 0 7 conn refl) refl refl))
      (Process.panic refl breaks)

Lives-PanicCause_example :
    (how : Panics whole write_response no_headers broken.world) × PanicCause whole write_response
      no_headers how
unfolding start
Lives-PanicCause_example = Lives-PanicCause whole write_response no_headers life refl refl
