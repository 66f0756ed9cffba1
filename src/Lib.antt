-- ===== src/Lib.antt =====
-- A verification library for the Redis server in redis-starter-go/app, a Go program that speaks the
-- protocol RESP over TCP.
--
-- One goroutine serves one connection: serveCommands (server.go) reads lines, looks a line up among
-- the command names and calls a handler (handlers.go), which reads its own arguments from the same
-- bufio.Reader, works on the package variables of the process and writes its reply. Handlers of
-- different connections share the keyspace, the users, the lists, the sorted sets and the replicas.
--
-- Where each part is modelled:
-- - Shared: byte strings, lists, `int` with a sign, and maps with string keys (Shared/Dict).
-- - Text: strings.TrimSpace, strings.ToUpper, strconv.Itoa and strconv.Atoi on ASCII bytes.
-- - Reader: bufio.Reader with ReadString and Buffered. What a connection will deliver is fixed
--   beforehand as a list of chunks and the error behind them: the end of the input, or another error,
--   such as a reset, which one read reports and behind which the input is at its end.
-- - Float: float64 as its bit pattern, with the comparisons. Search: sort.Search.
-- - Resp: the reply texts of fmt.Sprintf, and OffsetByteSize of utils.go.
-- - Geo: geocoding.go. The bit operations are exact on words of 32 and 64 bits; the arithmetic of
--   float64 and package math are a parameter (`Arithmetic`).
-- - Server: structures.go and the package variables of server.go as one record `Server`.
--   Server/Handler is the monad of the handlers: a handler takes the reader, the session's user and
--   the server, and ends normally, by `return`, by a panic, or blocked.
-- - Commands: CheckAuth, PropagateCommand and AppendToAof of utils.go and what the handlers share,
--   then one child module for each group of handlers: Strings (PING, ECHO, SET, GET), Config (CONFIG
--   GET, KEYS, INFO), Acl (ACL, AUTH), Lists (RPUSH, LPUSH, LRANGE, LLEN, LPOP), Blocking (BLPOP),
--   ZSets (AddToSortedSet and the commands Z...), Geo (the commands GEO...), Replication (REPLCONF,
--   PSYNC, WAIT, HandleReplConfSlave), Slave (HandlePsyncSlave, ConnectToMaster).
-- - Serve: serveCommands with its switch. Aof: AOFParser of utils.go. Rdb: rdb.go.
-- - Startup: main of server.go, from the parsed flags to the loop over Accept, with RandomString.
-- - System: the goroutines of the process together, as a step relation on the state they share.
-- - Tests: concrete servers and sessions, and the theorems applied to them.
--
-- Each handler is `handle_` and the command's name, with the reads, checks, writes and returns of the
-- source in their order. A handler holds the mutex of a list from its first look at the data to its
-- last, so it is one action. The read-write lock of a sorted set is part of the
-- set, because some handlers return without giving it back. A handler that waits (for a lock, in BLPOP
-- for a value, in WAIT for acknowledgements) ends as blocked, and what wakes it is an action of its own
-- (blpop_receive, blpop_timeout, wait_round, wait_expired). The goroutine that SET with PX starts is
-- an entry of `timers`. A step of System is such an action, by any connection with any input, or the
-- end of an expiry timer, or the clock, or a connection that breaks; the rest of a handler that is
-- given the lock of a sorted set after a wait is not a step.
-- Some handlers are coarser here than in Go: SET writes the key, counts and propagates without one
-- lock around them, ACL SETUSER changes a user without a lock, and WAIT locks the replicas three
-- times. What is proved of all interleavings concerns the lists, their channels and the sorted sets.
--
-- Fuel: the loop of serveCommands has a round for each byte, chunk and reset that the reader will
-- deliver (`size`), and the loops `for reader.Buffered() > 0` one more than what is left; every round
-- takes one of them at least, and the outcome `spun`, which stands for a loop without fuel, is shown
-- not to occur.
-- AOFParser has a round for each byte and chunk, and LoadRDB one for each byte.
-- The search of sort.Search has as many rounds as the slice has elements, since the range shrinks.
--
-- Parameters: `Library` (SHA-256 in hex, strconv.ParseFloat and FormatFloat), `Arithmetic` (float64
-- and package math) `Formats` (FormatFloat with five digits and the verb %f), and
-- `Machine` (files, paths, random numbers and the network as main sees them).
--
-- Not modelled: the log output; the parsing of the flags and the loop over Accept, which starts a
-- goroutine for each connection; white space and letters beyond ASCII; failures of the AOF's file
-- system after the start; memory that runs out, as for an array of a huge length; redis-tester, a
-- copy of the test harness of another project (codecrafters-io/redis-tester), which the server does
-- not import. The goroutine of a replica that serves its master starts while main still loads its
-- data; the model lets main load first. Go visits the keys
-- of a map in an order of its own; the model takes the order of the list. Sums of `int` stay far below
-- 2^63 and do not wrap; the multiplication of a timeout may, and wraps.
pub mod Shared
pub mod Text
pub mod Reader
pub mod Float
pub mod Resp
pub mod Search
pub mod Geo
pub mod Server
pub mod Commands
pub mod Serve
pub mod Aof
pub mod Rdb
pub mod Startup
pub mod System
pub mod Tests
