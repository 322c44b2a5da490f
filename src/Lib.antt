-- ===== src/Lib.antt =====
-- ekanite, a syslog server that indexes what it receives: a model of its core and proofs about
-- it.
--
-- A collector receives a byte stream, cuts it into messages with a delimiter, has a parser read
-- them, and puts an event for each in the channel of a `Batcher`. That collects events and hands
-- them to the `Engine`, which finds or creates the index for the time of each event; an index
-- has shards, which are bleve indexes on disk. The engine drops indexes that have aged out. A
-- query is read by the parser of the package query. The query server and the page over HTTP hand
-- a query to the engine and show what it finds.
--
-- Which module follows which file (paths from the repository's root):
-- - Batcher: engine.go, `Batcher`. `Start` runs a goroutine; its loop is the step relation
--   `Run`, whose steps are a sender's put, a receive, and the timer's expiry and its handling.
--   `Loop` holds the goroutine's variables, the channel, and the trace of the calls of the
--   indexer, which is a parameter. The counters are those of the expvar map, for this batcher
--   alone.
-- - Engine: engine.go, `Engine`: `indexForReferenceTime`, `createIndex`,
--   `createIndexForReferenceTime` and `enforceRetention`. `sort.Sort` is a parameter.
--   Engine/Search: `Search` of an `Engine` and of an `Index`, over the search of bleve. The goroutine
--   of `Search` reads the list of indexes without the lock; here nothing changes it meanwhile.
--   Engine/Demux: the loop of `Index` that divides a batch between the indexes. What other
--   goroutines do while the loop has given its lock up is a function of the engine and the disk,
--   which a theorem quantifies over; the map from pointers is a list of pairs with a test of
--   pointers as its key. Engine/Ingest: the whole of `Index`, down to the stores of the shards, which
--   another function changes as others do while the lock is free; an index without shards is a panic.
--   Engine/Opening: `NewEngine` and `Open`, whose state is the engine and the disk.
--   Engine/Enforcement: the goroutine that enforces the retention, over what it receives.
--   Engine/Closing: `Close` and `Total`.
-- - Index: index.go, `Index`, `Indexes` and `Shard`, their times and how they are created,
--   opened, closed and deleted. Index/Routing: how documents are routed to shards.
--   Index/Documents: how they are written to the shards and read again; the contents of a bleve
--   index are of any type, and what bleve promises of a batch is a record of hypotheses.
--   Index/Opening: `OpenIndex` and `listShards`, over an interface for files and directories;
--   `sort.Strings` and `time.Parse` are parameters. Index/Writing: what `NewIndex` leaves there, over
--   a file system whose promises are a record of hypotheses.
-- - DocId: index.go, `DocID` and `DocIDs`, and event.go, `ID` of an `Event`.
-- - System: what these use of the operating system, the clock and bleve, as a record of
--   operations over a state of the disk. Nothing is assumed of them but what a theorem names:
--   bleve opens an index that is stored and not open, for one, and only that.
-- - Rfc5424/Delimiter: rfc5424/delimiter.go. The reader is the list of the bytes to come.
--   Rfc5424/Reader: rfc5424/reader.go.
-- - Regexp: what is used of Go's package regexp, as an executable matcher with backtracking, and
--   what it finds: Regexp/Matching says what a match is, Regexp/Soundness and Regexp/Growing
--   what a search finds, Regexp/Completeness that one is found where there is one, Regexp/Greedy
--   which one. The patterns of the repository are terms of its type, in the modules below.
-- - Parser: parser/rfc5424.go and parser/watchguard.go: `Init` and `Parse` of both formats.
-- - Input/Netstr: input/delimiter_netstrings.go. Input/Syslog: input/delimiter_syslog.go, whose
--   field `regex` is the flag `running`.
-- - Input/Handler: input/parser.go; the interface `LogParser` is the type of its
--   implementations.
-- - Input/Event: input/event.go, over any type of times, with `IsZero` and `time.Parse` as
--   parameters.
-- - Input/Collector: input/collector.go. A connection is the list of what its reads give, with
--   the time of each, and the channel is the list of the events sent; the package's sequence
--   number is the 64 bits of it, and no other connection takes a number in between.
--   Input/Collector/Serving: many connections at once, as a step relation: a goroutine reads, or
--   sends the event that it has made, and the others, or other collectors, take numbers in
--   between. Input/Collector/Udp: the loop over packets.
-- - Server: server.go, `handleConnection` over the bytes that the client sends, with the
--   searcher as a parameter. Server/Http: server_http.go, `ServeHTTP`, with the template's
--   execution as a parameter. Server/Starting: how both servers are started.
-- - Status: status/service.go, the registry of providers and the answers to requests, over what
--   the network, json, expvar and the providers give.
-- - Command: cmd/ekanited/main.go, as the list of the actions of `main`, of which a parameter says
--   which fail. The flags are given as a record; Command/Tls: `newTLSConfig`.
-- - Query/Token, Query/Lexer, Query/Parser: query/token.go, query/lexer.go and query/parser.go.
--   The reader is the list of the runes to come.
-- - Strings: what is used of Go's strings and strconv. Prelude: shared names, lists and tests.
--
-- Times are natural numbers of nanoseconds, a slice out of range and a nil dereference are
-- results of their own (`panic`, or `none`), and `int` lengths do not overflow, but for the
-- length of a netstring, which is read as `strconv.Atoi` does. A loop over a list is a recursion
-- on it. Three functions run on fuel: `read_all`, which calls `ReadLine` as often as it says;
-- `parse` of a query, which is given two units for each rune of the query and two more, since
-- every call that does not read a rune is followed by one that does; and `serve`, which is given
-- one unit for each byte and one more, since each line takes a byte at least.
--
-- Not modelled: the mapping of fields for bleve, which only calls bleve; logging, and the
-- handlers of pprof. bleve, the network, templates, json, the reading of flags and TLS are
-- third-party or standard library code: what they give is a parameter.
pub mod Prelude
pub mod Batcher
pub mod Strings
pub mod Regexp
pub mod Rfc5424
pub mod System
pub mod DocId
pub mod Index
pub mod Engine
pub mod Parser
pub mod Input
pub mod Query
pub mod Server
pub mod Status
pub mod Command
