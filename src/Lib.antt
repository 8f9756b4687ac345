-- ===== src/Lib.antt =====
-- The FBS interlock gateway: a server that answers the interlock requests of a facility's
-- booking system (FBS) by reading and switching Shelly relays over HTTP. This library models its
-- logic and proves the properties listed at the end.
--
-- Parts and files. Each file names the Go code that it models; a definition carries the Go name
-- in snake case, and a Go function of several steps is split into definitions that it calls.
--   Prelude, Text, Dict: shared types and lemmas; texts as lists of code points with what is
--     used of Go's package strings, and Go's maps as association lists that are only read by
--     key.
--   Files: the files that the program writes, as a map, and the steps that a call takes on them;
--     the temporary file that writeGeneratedMirror of internal/configstore/store.go and
--     writePrivateAtomic of cmd/fbs-interlock-gateway/main.go share.
--   Config: internal/config/config.go. Defaults, validation and protocols; Config.Files has Load
--     and WriteAtomic.
--   Status: internal/status/store.go. The latest state of every tool, ordered by revisions.
--   Fbs: internal/fbs/server.go. A request, the call of a Shelly client, which is a parameter
--     and may fail or panic, the record in the status store, and the reply.
--   ConfigStore: internal/configstore/store.go. The tables of schemaV1 with their checks, and
--     the transaction that replaces the configuration; an argument says which statements fail.
--     Opening has Open and the migration of the schema, Mirror the YAML file beside the
--     database.
--   Shelly: internal/shelly. Gate is the slot that FBS requests and administration probes
--     compete for, as steps of any number of goroutines, each a critical section, a channel
--     operation or the call of a cancel function (client.go); Digest is authentication
--     (digest.go); HttpError is error.go; Recovery and Auth are the restarts of devices and the
--     request loops, and Requests the status with its retry, Set and Reboot, and Setup the
--     client with its TLS files (client.go).
--   Applog: internal/applog. Records are cut to their size (store.go), and queued for one worker
--     (async.go), as a sequence of events. Archive is the directory of log files (store.go): its
--     Files, its Cleaning, Writing with rotation from Open to Close, and Exporting.
--   Admin: internal/admin/server.go. What the administration interface shows and saves (Update),
--     which requests it lets through (Guard) and acts on (Handlers), and its refresh of the
--     status rows (Refresh).
--   UpdateAuth: internal/updateauth/verify.go. The check of a signed checksum.
--   Gateway: internal/gateway/gateway.go. The configuration in memory and its replacement, over
--     an interface that ConfigStore fills in Startup.Restart; Gateway.Running has Run, as the
--     list of what it starts and the result for each way to end.
--   Ports: internal/process/kill.go. The clearing of a port before a server listens on it.
--   Startup: cmd/fbs-interlock-gateway/main.go. The configuration that the program starts with,
--     in Commands the commands config export and config import, and in Running runGateway.
--   Witnesses: the theorems at concrete inputs.
-- A saved change goes through Admin, Gateway and ConfigStore; a start goes through Startup,
-- ConfigStore and Gateway; the commands go through Config.Files and ConfigStore; a request of
-- FBS goes through Fbs, Status and the Shelly client.
--
-- Bounds. The request loops run on fuel that is the code's own count of attempts, six with
-- authentication and two without, and the results below say that it is not used up; a status is
-- tried at most twice, and a new log file has 1000 names to try. The limits of 30000 uses of a
-- digest session and of 1024 jobs and 8 MiB in the log queue are the code's. Revisions and the
-- count of dropped records wrap around at 2^64. Saved changes, starts and commands are modelled
-- one at a time; only the slot of a device, the log queue and the refresh of the status are
-- modelled with other calls in between. Ids of the database stay below 2^63, and times are
-- nanoseconds that do not overflow, but the product that makes the timeout of the devices'
-- client wraps around at 64 bits. Letters are folded on ASCII only; white space is Unicode's.
--
-- Parameters. SHA-256, randomness, the clock and the transport of requests, PEM, PKIX and
-- Ed25519, TLS files, the command that clears a port, the device behind the client of Fbs, the
-- codecs, flag parsers, net/url and path/filepath, and which calls of the operating system and
-- of the database fail are arguments.
--
-- Not modelled: YAML and JSON codecs, directories and permissions, other programs that write the
-- same files, SQLite beyond the constraints above, HTTP servers, headers and the delayed signal
-- of a restart, tracing and timing of requests, the parser of the gateway's flags, signals, log
-- lines and the web pages. These call libraries and the operating system, or are planned. A
-- write of the archive and the clean-up that it starts are one step.
pub mod Prelude
pub mod Text
pub mod Config
pub mod Dict
pub mod Files
pub mod Status
pub mod Fbs
pub mod ConfigStore
pub mod Shelly
pub mod Applog
pub mod Admin
pub mod UpdateAuth
pub mod Ports
pub mod Gateway
pub mod Startup
pub mod Witnesses
