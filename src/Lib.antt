-- ===== src/Lib.antt =====
-- mmar exposes a web server on a developer's machine under a public subdomain. A client opens a TCP
-- connection to the mmar server and asks for a tunnel; the server gives it a subdomain, sends every
-- HTTP request for that subdomain over the connection as a message with an id in front, and answers
-- the user with the response that comes back under that id.
--
-- The parts, and the files that model them:
-- - internal/protocol/main.go: Protocol (message types, `serializeMessage`, `deserializeMessage`),
--   Protocol.Conn (`Tunnel`, `SendMessage`, `ReceiveMessage`), Protocol.Errors (what a user reads
--   when a tunnel fails).
-- - internal/auth/main.go: Auth, one function for each method of `AuthManager`.
-- - internal/server/main.go: Server.State (the structs), Server.Names (`isValidSubdomainName`,
--   `GenerateUniqueSubdomain`), Server.RequestId (`GenerateUniqueRequestID`), Server.Registry
--   (`newClientTunnel`, `closeClientTunnel`, `TunnelLimitedIP`, `drainChannels`, `close`),
--   Server.Requests (`ServeHTTP`, `handleResponseMessages`, `handleServerStats`; Server.Requests.Headers
--   says what headers a response leaves), Server.Loop
--   (`processTunnelMessages`), Server.World (`handleTcpConnection` and the goroutines, as steps that
--   interleave), Server.Start (`Run`, with Server.Start.Process and Server.Start.Ending for the process
--   and its end). Server.Frame says what the operations leave alone, with its lemmas in the modules
--   named Frames; Server.Keeps what their tables keep, with its lemmas in
--   Server.Loop.Safety and the modules named Keeping, and Server.Invariants two such properties;
--   Server.Loop.NoCrash says when a round of the loop cannot crash the server.
--   Server.Abstract is the registry without its tables: who owns a name, and how often a name is
--   counted for an address and a token, with the rules for opening a tunnel; Server.Abstract.Refining
--   relates it to the tables, and Server.Start.Registered says so of whole histories.
--   Server.World.Owning follows a client's name through histories, and Server.World.Routing,
--   Server.World.Settled and Server.World.Provenance follow requests and responses; the modules
--   named Quiet say what touches no request.
-- - internal/server/utils.go: Server.Cancel (`respondWith`, `handleCancel`, `cancelRead`),
--   Server.Serialize (`serializeRequest`, `createSerializedServerResp`), Server.Names
--   (`GenerateRandomID`), Server.RequestId (`GenerateRandomUint32`).
-- - internal/utils/main.go: Utils, Utils.Address, Utils.Credentials.
-- - internal/client/main.go: Client (`create_tunnel_data` and `reclaim_data` for what `Run` and
--   `reconnectTunnel` send, `handleRequestMessage`, `ProcessTunnelMessages`), with Client.Tunnels and
--   Client.Forwarding; Client.Rounds is the loop of `ProcessTunnelMessages`, Client.Start is `Run`.
--   EndToEnd, EndToEnd.Asking and EndToEnd.Session put client and server together.
-- - internal/logger/main.go: Logger (the wrapped response writer, `LoggerMiddleware`, `LogHTTP` and
--   the other lines), with Logger.Middleware and Logger.Colors.
-- - cmd/mmar/main.go: Cli.Main (`main`), over Cli.Flags, which is Go's `flag` for flags that are texts.
-- - simulations/dnsserver/main.go: Dns (`StartDnsServer`, `handleDnsConn`);
--   simulations/devserver/main.go: Devserver (the handlers of the test web server);
--   simulations/simulation_utils.go: Simulation (`extractTunnelURL` with the matching of its regular
--   expression, `validateRequestResponse`, `manualHttpRequest`, `manualReadResponse`).
-- - constants/main.go: Constants.
-- Prelude holds what these share: Boolean tests, lists, maps as association lists, Go's readers,
-- `strings` and `strconv`. Http is the part of `net/http` that writes a response. Tests holds runs
-- at concrete values.
--
-- How state is modelled. A function that changes the server takes its state and gives the new one.
-- What the program shares by pointer has a table: connections by a number, the in-flight requests
-- and the channels of a tunnel by another, so that the copies of a `ClientTunnel` share them as the
-- copies of the Go struct do, and the exchange of each HTTP request by a third. `Running` says that
-- a goroutine panicked, which ends the server. A connection is the bytes that were written to it and
-- what the network does to the next write; a reader is the bytes that will arrive and the error that
-- follows them. Bytes and numbers are natural numbers; the wrap-around of a 32-bit id and the range
-- of a 64-bit `int` are written out where the program reads them.
--
-- Bounds and fuel. The two loops that draw a name or an id take the sequence of draws as an
-- argument. The name's loop is run for two tests, which is enough, since a drawn name is never
-- reserved; the id's loop takes fuel, and its theorem says how much is enough. The abstract registry
-- does not bound the tunnels of a token, since goroutines that check at the same time may exceed that
-- limit. The loop of the DNS server over a name takes as many rounds as bytes were read, and each
-- round passes one at least. All other loops are recursions on their input. A buffer of more than 2 ^ 48 bytes cannot be made.
--
-- Parameters: SHA-256, the reader and the writer of HTTP messages, the JSON decoder and encoder,
-- random draws, and on the client's side the dialer, the local server, `url.Parse` and the
-- certificate file. Nothing is assumed of them in general, except that a hash consists of bytes.
--
-- A history of the server is any sequence of the steps of Server.World. What the network sends, what
-- users ask for, when they go away and what is drawn at random is chosen freely in each step. A request
-- for a tunnel is one step, and so is the closing of one, although `closeClientTunnel` changes the tables
-- without the server's lock, and the token is checked before the lock is taken.
--
-- Not modelled: histories in which the closing of a tunnel overlaps another change of the tables, in
-- which the program can lose an entry of the list of an address, and those in which the check of a token
-- overlaps another request for a tunnel; what `net/http` makes of the headers, the status and the body
-- that are written on a response writer (no body for HEAD, 204 or 304, no more than Content-Length); sockets, timers and signals (a timer that fires is a call), the time stamps of log
-- lines, the help that Go's `flag` prints, and the tests of simulations/simulation_test.go, which start
-- the programs and are no part of them; of these only the loop that looks for URLs in the lines of a
-- client is there.
pub mod Prelude
pub mod Constants
pub mod Http
pub mod Logger
pub mod Protocol
pub mod Utils
pub mod Auth
pub mod Server
pub mod Cli
pub mod Dns
pub mod Devserver
pub mod Client
pub mod Simulation
pub mod EndToEnd
pub mod Tests
