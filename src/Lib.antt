-- ===== src/Lib.antt =====
-- Cogs: a job queue that keeps all its state in one Redis.
--
-- The server (internal/cogs) is a set of stateless HTTP handlers and three background loops. A
-- job is a hash with its payload, and its ID stands in one of four structures of its queue: the
-- pending list, the leased sorted set with its deadline, the retry sorted set with its next time,
-- or the dead list. Each move between them is one Lua script, so one atomic step. Workers claim
-- jobs under a lease and renew, acknowledge or fail them; the reaper takes back what has expired,
-- the retry drainer what has waited long enough, and the scheduler enqueues the jobs of due cron
-- schedules. The loops run on the process that holds a lock in the same Redis.
--
-- Files, and the code that they follow:
--   Keys: the key layout and the queue names (internal/cogs/job.go, queueFromKey of store.go).
--     Keys/Layout and Keys/Families are about the keys, Keys/Names about the names.
--   Redis: the commands of Redis that the program uses, as a record of operations and laws;
--     Redis/Values the stored values, Redis/Memory an instance that keeps its writes in a log.
--   Scripts: the Lua scripts of internal/cogs/store.go, one function for each.
--   Jobs: the places of a job and the invariant; below it a module for each script or pass.
--   Schedules: the schedule script; Schedules/Manager is Create, Delete, List and Pass of
--     internal/cogs/scheduler.go, Schedules/Fire, Schedules/Again and
--     Schedules/Passes their theorems.
--   Leader: tryAcquire and release of internal/cogs/leader.go with the two lock scripts; Leader/Lock
--     and Leader/Leaderless their theorems, Leader/Effects what they do to the keyspace.
--   Store: the operations of internal/cogs/store.go on top of the scripts; Store/Reads the reads,
--     Store/Backoff the delay of internal/cogs/loops.go, Store/Backoff/Jitter its random factor
--     in double precision, Store/Priority the order in which Claim serves queues.
--   Loops: reapPass, retryPass and drainDue of internal/cogs/loops.go; Loops/Sources,
--     Loops/OnePass, Loops/Entries and Loops/Backlog are about one pass, Loops/Ticks about many.
--     Loops/Runtime is `Start`: the loops of one process beside `Run` of internal/cogs/leader.go.
--   Api: the requests and responses of internal/cogs/api.go; Api/Handlers the handlers and wrap,
--     Api/Parse what they read from a request.
--   System: all of this as a sequence of atomic steps; System/Runs relates Go code to steps,
--     System/Leases and Jobs/Leases follow one lease through them, System/Poison and Jobs/Poison a
--     job whose lease runs out again and again, System/Markers the marker of an idempotency key,
--     System/Firing a schedule that has fired (Jobs/Apart: what leaves both alone).
--   Server: requests, passes and elections of any number of processes, one after the other, and
--     calls that are sent again; a finer interleaving of calls is a sequence of steps of System.
--   Settings: LoadConfig, env and envInt of internal/cogs/config.go.
--   Sdk: the calls of sdk/go/cogsclient/client.go, each over HTTP to a server; Sdk/Calls what they
--     return, Sdk/Retries an enqueue that is repeated. Sdk/Worker is `process`, one job with its
--     heartbeat, Sdk/Pool is `Worker` with `Handle` and `Run`; their theorems are below them.
--   Tests: each theorem at a concrete keyspace.
--
-- How the code is modelled. A script takes the keyspace and gives its reply with the new one. A
-- call of Redis from Go runs over a Link: it is answered, it never arrives, or its reply is lost
-- after it took effect; an HTTP request of the client too. The client library of Redis, with the
-- options of NewStore, sends a call again when its reply is lost: an operation here runs each of
-- its calls once, and a repetition is one more step of System or activity of Server, permitted if
-- it is an enqueue call only with a standing marker. Jobs/Resent is about one without a key. The
-- clock, random IDs, the fate of each call, and the random factor of a backoff are arguments. The
-- goroutines of a worker or a server are events in any order, among them what all others do to
-- the keyspace. A loop over a list is recursion on the list; the long poll is recursion on its
-- rounds; the loop of SCAN cursors runs on fuel. A crash is a sequence of steps that stops.
--
-- What is assumed. Redis is not part of the repository: its laws are its documented effects, for
-- keys of one type each. Scores and times are integers in milliseconds, durations are not
-- negative, and DrainLimit is positive. What HINCRBY does to a field that holds no integer is
-- left open, and attempts stay below 2^63, where Redis refuses to count. The lock's time is
-- positive in every theorem: of a time of 0 the client library makes a lock that never runs out,
-- the model a refusal. The random factor of a backoff is k/2^53; the code draws n/2^63, which
-- rounds to such a factor. Where IDs must be new or a lock time positive, a theorem says so. The
-- cron parser is a parameter. Request bodies stand as the JSON decoder gives them.
--
-- What is not modelled: metrics, logging, the mux, the JSON codec, the transport of the client
-- with its time limits, the OnClaim hook, the start-up of the commands, and the load and chaos
-- tests, which drive the program from outside.
pub mod Prelude
pub mod Keys
pub mod Results
pub mod Redis
pub mod Scripts
pub mod Jobs
pub mod Schedules
pub mod Leader
pub mod Store
pub mod Loops
pub mod Api
pub mod System
pub mod Server
pub mod Settings
pub mod Sdk
pub mod Tests
