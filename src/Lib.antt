-- ===== src/Lib.antt =====
-- netquality measures responsiveness under load: a client opens load flows to a server, probes the
-- link while it is loaded, and an engine decides when the readings are stable.
--
-- The parts, and the files that model them:
--
-- * Engine/ is internal/engine. Params is StabilityParams and its defaults (stability.go), Tracker
--   the moving averages and their criterion, Samples and Responsiveness the statistics (stats.go),
--   State, Interval and Summary the state of a phase and the methods New, Interval, updateBound,
--   Summary, window and ProbeGap (engine.go). Bag is what the statistics are without an order of
--   the samples. Phase closes the loop with the I/O layer: the loop of loadPhase (run.go) reports
--   the flows that are open and opens those that a decision asks for.
-- * Client/ is the root package. Options is Options and StabilityParams with their converters
--   (options.go, convert.go), Target the configuration document with its checks (target.go), Proxy
--   the transports' factory and the TLS inspection (transport.go, run.go), with newTransport and
--   its dials in Dial, Connections and Addresses what the transports keep (transport.go). Idle is
--   the idle latency (run.go). Of a load phase (run.go, load.go, result.go), Stop is the reasons
--   that end it, Bytes its byte counter, Flows the retry loop of a flow with its upload body, its
--   children Request and Body oneRequest for a download and the closing of an upload's response,
--   ProbeLoop the scheduler of its probes, Probe one probe (probe.go), with its trace hooks in
--   Trace and what it measures in Timely, Headers the headers of a request, Clock the clock of the
--   probes (clock_windows.go), Buffers the samples on their way to the engine, LoadPhase the loop
--   of loadPhase, with its Teardown, and Report its result. Of LoadPhase, Grown, Steps, Counts and
--   Outcome are what its events do to the flows, to the engine and to the samples, and what it
--   returns. Run is Run: Discover the discovery, Phases its state, result and environment, Steps
--   the code, Plan, Core, Loads, Kept and Reported what it announces and what it returns.
-- * Server/ is server/. Budget is clientBudget, Handler the guard and the routes of Handler, its
--   children Streams the two bulk handlers, Config the configuration document and the small
--   object, and Service the guard with authorize (server.go), Sign the signatures and the check of
--   signed URLs, with Values the query, Issue SignURL and ParseSigningKey, and RoundTrip the two
--   together (sign.go), Listener the cap on open connections, and Certificate the self-signed
--   certificates, with whom they are for in Names (server.go).
-- * Linksim/ is internal/linksim: Link the simulated link, Loop Run with its rounds, Finish its
--   end, Phases the engine that it drives.
-- * Cmd/ is the two commands: Server, Serve and Sign are run and runSign of cmd/nqserver, Nq and
--   HumanBytes run, parseBytes and humanBytes of cmd/nq, with what the flags ask for in Nq's child
--   Plan, and Print what nq prints. Version is internal/buildinfo.
--
-- The client's phases drive the engine: Client.Report takes the engine's summary, Client.Options
-- the engine's parameters, and Client.Buffers hands over the probes; Client.LoadPhase puts these
-- together with the flows, in place of Engine.Phase's observations. Client.Run composes the
-- discovery, the idle phase and the load phases; Cmd.Nq asks Run for what the flags say. The
-- simulator drives the same engine. On the server the guard authenticates, with authorize and the
-- check of Sign, then asks the budget for a ticket, and settles it when the handler ends;
-- Cmd.Server gives it its options. Client.Target.Served hands what Server.Handler.Config serves to
-- the client's parser.
--
-- Conventions. int and int64 are integers with the wrap-around of 64 bits written out (add64,
-- sub64, mul64); counts of list elements are natural numbers. A time or a duration is a number of
-- nanoseconds. float64 is not defined: Float is a record of the operations that the code uses, an
-- argument of every definition that computes with it, and Float.Micro is an instance in millionths
-- at which the tests run. The results below need no law of it. Methods under a mutex are single
-- steps; code that shares atomics, or a Once, or releases its lock between two parts, is a step
-- relation whose steps are the atomic parts, in any order. Pointers that are shared, the buckets
-- of the budget, are addresses in a heap.
--
-- Fuel: the loop of the large download has one more than the bytes that remain, and each write of
-- a positive number of bytes shortens them. The check of the document's keys (Client.Target.Keys)
-- has one more than the text that is left, which each entry shortens. The simulator's loop has one
-- round for each ten milliseconds of the budget, its time step. The loop of humanBytes has seven
-- rounds, and a 64-bit count needs five.
--
-- Parameters: HMAC-SHA256, base64, strconv and the query of a URL in Server.Sign, the writes of a
-- response in Server.Handler.Streams (with the contract of io.Writer), the functions on strings in
-- Server.Handler.Service, Client.Run and Cmd, encoding/json, its token decoder and net/url in
-- Client.Target and Server.Sign, the host and port functions of net in Client.Proxy, math.Pow and
-- the random source in Linksim, the flag package in Cmd, package time and the answers of the
-- operating system in Client.Clock, crypto/x509 and the random source in Server.Certificate,
-- debug.ReadBuildInfo in Cmd.Version, and the outcomes of requests, probes and contexts in Client,
-- of which RunEnv gathers those of a run.
--
-- Not modelled: net/http itself, most response headers of the server, clock_other.go, whose
-- functions are those of package time, the events and the logging, the rendering of fmt, and
-- latencyStatsFrom, which copies a record field by field.
pub mod Prelude
pub mod Float
pub mod Engine
pub mod Client
pub mod Server
pub mod Linksim
pub mod Cmd
pub mod Tests
