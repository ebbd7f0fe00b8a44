-- ===== src/Lib.antt =====
-- EMUNEL: a self-hosted proxy platform. A Core relays the traffic of its links and enforces their
-- quotas, the Console sets the limits of instances and watches over them, a Worker runs the Cores
-- of a node, and engines transform the traffic of either.
--
-- The parts, and how they correspond to the code:
--
-- - State (core/emunel_core/state.py). `State.Link` is class Link, `State.Links` is LinkStore
--   (`use` is `spend`, `remove` is `pop`), `State.Stats` is RuntimeStats, `State.Connections` is
--   ConnectionTracker with the admission of a connection, which is one step in every transport but
--   VMess. `State.Speed` is _TokenBucket and
--   SpeedLimiter; `State.Store` is load and save of StateStore and `State.Saver` its
--   schedule_save, by the events that the loop meets. A store is an association list in insertion
--   order, as a Python dict.
-- - Relay (core/emunel_core/relay/). `Relay.Gate` is RelayContext and QuotaGate of base.py, whose
--   `add` and `flush` every transport but VMess calls for its chunks. `Relay.Traffic` is the
--   traffic of all connections of one Core: any interleaving of the calls of all gates over one
--   shared context, but the tunnels of VMess. `Relay.Vless` is the request header of vless.py and
--   `Relay.Trojan` that of trojan.py, read and built, over the byte reading of `Relay.Wire`.
--   `Relay.Xhttp.Packets` is what packet_up_upload of xhttp.py does with a packet of one session,
--   `Relay.Xhttp.Sessions` are the sessions of XHttpEngine with their teardown and the reaper, and
--   `Relay.Xhttp.Upload` is packet_up_upload as a whole; `Relay.Xhttp.Streaming` is
--   stream_up_upload, whose chunks, and how each write of one ends, are a script. `Relay.Vmess` is
--   XrayRuntime of vmess.py by its reference counts, and the accounting of its tunnel. `Relay.Shadowsocks` is class
--   AEADStream of shadowsocks.py, and its `Address` is parse_socks5_addr.
-- - Api (core/emunel_core/app.py). `Api.Quota` is the instance's cap in the management API, and
--   `Api.Links` the creation, patch and deletion of links.
-- - Console (console/api/emunel_console/). `Console.Volume` is services/volume.py: one instance's
--   row, the Core that it meters, and one row's round of `enforce_all` with the calls to the Core,
--   each of which may fail. `Console.RateLimit` is security/ratelimit.py: the windows of hits per
--   key and the choice of a rule. `Console.Configs`, `Console.Policy` and `Console.Editing` are
--   services/links.py: the reconciliation after a deployment, the reading of a policy, and the
--   creation, edit and deletion of configs, each with the handlers of `Api.Links` that it calls in
--   the Core; `Console.Listing` is list_links with the links that it adopts. `Console.Deployments`
--   is services/deployments.py: the pipelines by the answers that they get. `Console.Auth` is
--   auth/sessions.py: the table of sessions over logins and logouts, and the CSRF check.
-- - Worker (worker/emunel_worker/). `Worker.Ports` is PortAllocator of driver.py, `Worker.Driver`
--   are the operations that its two drivers share over what they do outside their own tables
--   (`Runtime`), and `Worker.Process` and `Worker.Docker` are that of each. `Worker.Node` are the
--   handlers of main.py that change instances, with the registry of registry.py and the relaunch
--   of what it knows when the Worker starts, and `Worker.Launching` is the choice of the module
--   that a Core is launched through.
-- - Engines (engines/). `Engines.Fec` is the erasure codec of engines/fec.py, and
--   `Engines.Coalescing` the engine of engines/coalescing.py. `Engines.Pipeline` is
--   CircuitBreaker of base.py and run_pipeline of manager.py, over engines that may raise after
--   they have changed the batch. `Engines.StateStore` is state.py with the toggles that the
--   manager records in it.
-- - Prelude: Boolean tests, lists, dictionaries, integers and text over the native numbers, and
--   floats.
-- - Examples: the theorems at concrete inputs.
--
-- How the code is read. The methods of the Core run on one event loop, and none suspends while it
-- holds the lock of the link store, so each is one step; a throttled `add` is a step up to its
-- throttle, and `answer` is what it returns after it. Floats are an interface of operations with
-- no laws (`Prelude.Float`), so what is proved of a gate holds for any arithmetic of rates. Clocks
-- are arguments. The token bucket alone counts exact thousandths of a byte and milliseconds.
-- Integers that may be negative are ℤ, and counters of bytes are ℕ. A byte is a number; what needs
-- a bound asks for it. The cipher and the reading of addresses and of text are records of
-- operations, and so are the commands of Docker; what is used of them is a named hypothesis. The
-- hash of a session's token and the processes that the system makes are functions. Two loops run
-- on fuel: `drain` on the number of packets that wait, of which each round takes one, and `chunks`
-- on the bytes that wait, of which each round takes at least 34. The loops of a deployment run on
-- their numbers of attempts, as in the code. Other recursion is on lists and numbers.
--
-- Not modelled: sockets, HTTP and the database, whose statements are taken to succeed; the
-- cancellation of a request; calls of one session of xHTTP, or batches of one pipeline, that are in
-- flight together; requests that come while a Worker relaunches what it knows; the waiting of a
-- throttled gate, for which `State.Speed` stands alone; the tunnels of the WebSocket transports
-- and the download of xHTTP, and of an upload of stream-up its upstream, its flow control and the
-- time of its last chunk; JSON; of the Worker the limits, the environment, the files and the probes
-- of a Core, its proxy and its monitor; of the engines their activation, the event bus, the logs
-- and all but those two; the gateway, the subscriptions, the backups, the routers and the frontend.
pub mod Prelude
pub mod State
pub mod Relay
pub mod Api
pub mod Console
pub mod Worker
pub mod Engines
pub mod Examples
