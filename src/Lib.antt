-- ===== src/Lib.antt =====
-- The Go client of the HurriCache server: a verification model.
--
-- The program. A client (client.go) checks its configuration once and sends every operation through
-- `perform`: options, context and life of the client are checked, the key is encoded (codec.go), and a
-- backend runs the operation's action on a stub. The direct backend (client.go) has one stub; the smart
-- backend (smart.go) waits for a topology, picks a shard and its endpoints, and acts at most once more
-- elsewhere after a failure. The operations on scalars, positions, times, locks and atomic values are in
-- operations.go; those on containers, which split large inputs into bounded requests and read streams of
-- batches, are in collections.go, with named variants in convenience.go; interface.go lists them all.
-- Behind the smart backend's calls, goroutines share its state under one lock: refreshes, one at a time,
-- ask a coordinator for the topology, check it and publish it, which replaces the endpoints that calls
-- use; each call pins the endpoints of the topology it took; `close` waits for the refreshes and closes
-- what is left.
--
-- The files. Each is named for the part that it models; function names are the source's in snake case.
--   Prelude      numbers, Boolean tests and list lemmas that the rest shares
--   Errors       statuses, RPCError, PartialError, `partial`, `hasPartial` (client.go)
--   Types        the public data (types.go)
--   Wire, Rpc    the messages and remote methods of the generated code (proto/cachepb), as far as used
--   Config       `Config`, `normalizeConfig` (client.go)
--   Codec        encoding and decoding of payloads, keys, values and results (codec.go, `decodeKey`)
--   World        what a call observes (contexts, clocks, the server) and changes (the log of calls)
--   Session      `session`, `unary`, `perform`, the direct backend (client.go); Answers counts, in a log,
--                the calls that the server answered
--   Operations   operations.go: scalars and atomics, and in the children Values and Times the rest
--   Collections  collections.go: Split (`split`), Items (`encodeItems`, `addRequest`), Create
--                (`CreateContainer`), Add (`add`, `RemoveFromContainer`), Streams (`collect`)
--   Convenience  convenience.go
--   Smart        smart.go: Routing (`waitReady`, `run`), State (`smartBackend`, endpoints, pins,
--                `retireLocked`), Publish (`publish`), Discover (`discover` and the messages of
--                proto/coordinatorpb), Refresh (`refresh`), Lifecycle (the steps of the goroutines, `close`)
--   Client       client.go and smart.go: `dial`, the constructors of clients, `Close`, the getters
--   Interface    interface.go: the operations as one type; Run has the function that runs one
--   Tests        concrete data, a run of the model, and each theorem at a concrete input
--
-- State and time. A step is a function of a `World`: the calls made so far, how often the program has
-- looked at something that changes, and whether a refresh was asked for. An `Environment` tells what is
-- seen at each look (whether a context has ended, the clock, whether the client is closed) and what the
-- server answers after each history of calls, so that the theorems hold for any server, any other
-- clients and any timing. Errors are values: a Go function with a zero value beside each error is an
-- `Except`, one whose value counts beside an error returns a pair, a `Ret`.
--
-- Sharing. Endpoints are shared by maps, topologies and running calls, so they live in a heap and are
-- known by address. `publish` and `refresh` are functions of the backend's state; besides, each section
-- that they, `run` and `close` hold the lock for is a step of a system, and theorems on the reachable
-- states hold for every order of those steps. `close` cancels the client's context, and a step that gives
-- up because of that is marked so. A refresh run alone is shown to be a sequence of steps.
-- A map is an association list, and a loop over a map follows its list.
--
-- Numbers. Naturals and integers are unbounded; where the source computes in 32 or 64 bits the wrap is
-- written out, as in the 32-bit sizes of payloads and the positions of chunks. Durations and times are
-- nanoseconds, expirations milliseconds.
--
-- Fuel. The loops of `split` run on fuel: a bisection halves the distance of its bounds and each span
-- takes an item, so the number of items is enough for both, and the theorem on `split` shows it. The
-- rounds of `refresh` are the number of coordinators, as in the source.
--
-- Parameters. The LZ4 package, the GZIP reader and writer, and the serialized size of a message are not
-- in the repository's code; they are fields of the environment. Theorems that need it assume that a
-- decompressor undoes its compressor. The server is arbitrary; the theorem on the order of chunks assumes
-- how it inserts at an end and beside a pivot.
--
-- What the connection factory, a coordinator and a context answer at each moment is a parameter too, and
-- so are `grpc.NewClient` and the `Close` of a channel.
--
-- Not modelled: TLS and dial options, the timer of `loop` (its ticks come at any time), the close of a
-- connection that discovery or publication does not keep, texts of errors, generated marshalling, the
-- tools.
pub mod Prelude
pub mod Errors
pub mod Types
pub mod Wire
pub mod Config
pub mod Codec
pub mod Rpc
pub mod World
pub mod Session
pub mod Operations
pub mod Collections
pub mod Convenience
pub mod Smart
pub mod Client
pub mod Interface
pub mod Tests
