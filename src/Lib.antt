-- ===== src/Lib.antt =====
-- A model of nebula-clone, a farm of iOS and Android devices: agents next to the devices keep a tunnel to
-- the server, clients occupy a device over HTTP, send it commands and watch its screen over a WebSocket.
--
-- Parts and files (a path is from the repository's root; a function keeps its name in snake case):
--   Prelude      Boolean tests and lists over the native numbers.
--   Js           What the sources use of JavaScript: a Map in insertion order (Table), numbers with NaN and
--                fractions (Number), JSON values (Json), the character classes of the patterns (Pattern).
--   Shared       packages/shared/src: the messages of the tunnel and their parsers (Types, Messages with
--                Wire for what JSON.stringify writes), the id patterns (Ids), the binary frames (Frames).
--   Server.Auth      packages/server/src/auth: the rate limiter and the bearer token.
--   Server.Devices   packages/server/src/devices: the SQLite repository (Devices), the service (Service).
--   Server.Streams   packages/server/src/streams: the relay (Streams) and the viewers' gateway (Gateway).
--   Server.Agents    packages/server/src/agents/agents.gateway.ts: connections and pending commands
--                    (Agents), what arrives on an agent's socket (Tunnel), and runs of both (Superseded).
--   Server.Occupancy packages/server/src/occupancy and the event bus: the listeners, and the server as one
--                    state with one step for each operation.
--   Server.Commands  packages/server/src/commands: who may send a command, and what becomes of its answer.
--   Server.Config    packages/server/src/config: the validation of the environment.
--   Agent.Config     packages/agent/src/config.ts: the agent's configuration (Load) from the environment,
--                    with the static devices (StaticDevices) and the Android part (Android).
--   Agent.Packets    the incremental parsers of packages/agent/src/h264-stream.ts (Helper) and
--                    mirror-packet-parser.ts (Mirror), over one loop.
--   Agent.Executor   packages/agent/src/command-executor.ts: the queue of each device.
--   Agent.Uplink     packages/agent/src: frame-backpressure.ts, stream-demand-gate.ts and, of
--                    server-tunnel.ts, sendFrame and the delays of the reconnects.
--   Agent.Discovery  packages/agent/src: discovery-state.ts, discovery-aggregator.ts, mergeWithStatic and
--                    composite-resolver.ts.
--   Agent.Fleet      packages/agent/src/controller-supervisor.ts: the sessions of a supervisor, their
--                    ports, and the synchronisation with the devices, for any kind of session.
--   Agent.Processes  packages/agent/src/process-tree.ts and the wait for the end of processes (Awaited).
--   Agent.Controllers packages/agent/src/controller-supervisor.ts: the life of a Controller session and
--                    the events that reach the supervisor.
--   Agent.Runners    packages/agent/src/android-supervisor.ts: the life of an Android session, with its
--                    launch cut at its awaits, and the events that reach the supervisor (Events).
--   Cli              packages/cli/src: the commands (Cli) and a whole call of the command line (Run).
--   Tests            Runs on concrete inputs.
--
-- How they interact: the viewers' gateway reads the table of devices before it adds a socket to the relay;
-- the service changes the table and publishes the occupations that end; the two listeners close the
-- sockets of the ended occupation and fail its commands; the agent gateway sends the notices of the end
-- to the agents, whose executor drops what still waits.
--
-- State and operations: each class is a record of its fields, each method a function that returns the
-- state after it, its result and what it did to sockets, timers and listeners, as a list of actions in
-- order. A socket is a number, its identity, and what is read of it (open, bytes queued) is an argument.
-- The table is the list of its rows in the order of insertion; an SQL statement is a function of the list,
-- and a transaction is one function, as the database is synchronous. Timestamps are milliseconds. Random
-- ids and the clock are arguments. Server.Occupancy runs an operation and its listeners as one step, as
-- the bus is synchronous; an interleaving is a list of steps.
--
-- Bounds: the loops are structural, except for the loop of the packet parsers, whose fuel is the length of
-- the buffer, which is enough, as each packet takes a byte at least (Agent.Packets), and for the wait
-- for processes, whose fuel is one more than the tenths of a second in the wait, as each round sleeps a
-- tenth (Agent.Processes.Awaited).
-- The numbers of frames wrap as in the typed arrays (2 ^ 16 and 2 ^ 32).
--
-- Parameters: TextCodec is TextEncoder and TextDecoder, with their behaviour on ASCII. Texts is trim
-- and Number of a text, Machine what config.ts asks of node (files, paths, names, JSON.parse), Host
-- path.join and String of a number; whether a call of spawnProcess returns is a function of the number
-- of the call. The resolver of the executor and the states of the sockets are functions. JSON.parse is
-- outside: a text message is the value that it parses to, if any.
--
-- Not modelled: the HTTP controllers, modules and decorators of the framework, logging, the timers of
-- the sweeps and of the tunnel, SQL migrations, the parsers of the output of devicectl and adb, the
-- stream processes of the agent, what the command line prints, the web components, and the Kotlin and
-- Swift programs.
pub mod Prelude
pub mod Js
pub mod Shared
pub mod Server
pub mod Agent
pub mod Cli
pub mod Tests
