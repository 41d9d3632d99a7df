-- ===== src/Lib.antt =====
-- A model of the core of Lunibee, a Discord API library in TypeScript.
--
-- The program is a set of packages. packages/ws/src holds one Gateway connection: the session
-- (session.ts), the reconnect policy (reconnect.ts, close-codes.ts), the heartbeat (heartbeat.ts),
-- the send budget (send-budget.ts), and the meaning of frames (protocol.ts), which the Gateway
-- class of index.ts puts together: it asks the session what to send and where to dial, the
-- reconnect policy when to dial, and tells the heartbeat of traffic. packages/sharding/src runs
-- many Gateways in child processes: the parent hands out IDENTIFY slots (identify.ts) and collects
-- the answers of its clusters (requests.ts), and restarts a cluster that has crashed
-- (supervisor.ts), if it holds the lock of the leader (leader.ts). packages/utils/src reads the
-- arguments of text commands (args.ts), and packages/structures/src computes a member's
-- permissions (permissions.ts). packages/rest/src queues the requests to the HTTP API by
-- rate-limit bucket (scheduler.ts). packages/collection/src holds the cached entities: a Map with
-- a time to live, an order of recency and a cap (index.ts).
--
-- Files and code:
-- Base: shared names; tests and lists over the native numbers, integers, UTF-16 text.
-- Collection: Collection of packages/collection/src/index.ts. `Maps` is the Map under it, `Heap` is
--   #heapPush and #heapPop, `Policy` is newPolicy's record with #track, #promote, #nextDeadline and
--   #rearm, `Store` is purge, #expireIfDue and #enforceCap over the map and its policy, `Keyed` the
--   constructor and the methods that take a key, `Derived` the methods over all entries and the
--   static ones. `Filed` relates the policy's entries to its heap, and `Keyed.Meaning` reads a
--   collection as a map whose keys have a lifetime.
-- Ws.Session: GatewaySession. `begin_connection`, `record_sequence`, `activate`, `invalidate`,
--   `handshake`, `connect_url` are the methods of those names; each returns the new state.
-- Ws.SlidingWindow: the timestamp lists of send-budget.ts and reconnect.ts.
-- Ws.SendBudget: GatewaySendLimiter and Gateway.#dispatch.
-- Ws.Reconnect, Ws.CloseCodes: classifyCloseCode and GatewayReconnect.
-- Ws.Heartbeat: GatewayHeartbeat with its timer callbacks as events.
-- Ws.Protocol: the classification of frames in packages/ws/src/protocol.ts, with opcodes.ts.
-- Sharding.Identify: IdentifyCoordinator of packages/sharding/src/identify.ts; `State` is its
--   fields and constructor, `Pumping` is `pump` and `#arm`, `Calls` the other methods and the
--   timer callbacks, `History` the sequences of calls.
-- Sharding.Requests: RequestTracker of packages/sharding/src/requests.ts; its histories are in
--   `Once`.
-- Sharding.Supervisor: ShardSupervisor of packages/sharding/src/supervisor.ts; its histories are in
--   `Histories`.
-- Sharding.Leader: RedisLeaderLock of packages/sharding/src/leader.ts, over any Redis that does what
--   `RedisLaws` of its `Leases` says.
-- Utils.Args: packages/utils/src/args.ts; `Tokens` is tokenizeArgs, `Reading` the mention parsers
--   and readOne over any type of numbers, `Parsing` is parsePrefixArgs, `Options` is
--   argsFromCommandOptions.
-- Structures.Permissions: packages/structures/src/permissions.ts; `Names` is the tables of
--   permissions and #resolve, `Sets` the methods of PermissionSet, `Compute` is
--   computePermissions.
-- Rest.Scheduler: run of RequestScheduler in packages/rest/src/scheduler.ts.
--
-- Conventions. Times are whole milliseconds. A clock reading, a random number, and what the owner
-- or the runtime answers (a write that succeeds, the URL parser) are arguments. Where the code
-- multiplies by Math.random() the result is an exact fraction; rounding of floating-point
-- arithmetic and powers of two beyond the range of a double are not modelled. `Infinity` for a
-- limit is `none`. Strings are lists of UTF-16 code units. Loops are structural recursions, but
-- for these, which take fuel: the `while` of `pump` in identify.ts, one round for each millisecond
-- that the reset lies back, which a theorem of Sharding.Identify.Service shows to be enough; and
-- in the collection the loop of #nextDeadline, two passes for each record of the heap and one
-- more, that of `purge`, one for each record and one more, those of the heap, its length, and that
-- of #enforceCap, the count of the recency list. Collection.Filed.Settle, Store.Purge, Heap and
-- Store.Cap show these to be enough. Calls that a callback makes back into the object while a
-- method runs are later events, except for `start` of `attempt`, which is an argument.
--
-- A record of the collection's policy is shared by its map, its list and its heap; the model keeps
-- it in the map, with the recency list as a list of keys and the heap as a list of what it orders
-- by, and an identity that tells a stale record from a live one. The keys of a collection are
-- numbers, its clock does not go back, and its callbacks do not call it.
--
-- Not modelled: of the collection equals, sorted, toSorted, random, randomKey, sample, stats, the
-- subclasses that it derives and its Redis and cache stores; sockets, compression, JSON, HTTP,
-- Redis, processes, audio, and the data classes, builders and managers over API payloads.
pub mod Base
pub mod Collection
pub mod Ws
pub mod Sharding
pub mod Utils
pub mod Structures
pub mod Rest
