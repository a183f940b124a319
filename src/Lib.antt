-- ===== src/Lib.antt =====
-- Models and proofs for Sugi, an observability engine in one binary.
--
-- The program samples CPU, memory, disks and network interfaces from /proc (internal/collector),
-- keeps recent samples in a ring buffer and log entries in SQLite (internal/storage), and serves both
-- over HTTP (internal/api, put together in internal/server and cmd/sugi). Samples go to the ring
-- buffer and, as events, to the hub that feeds the open event streams; log entries go through a
-- bounded queue to one worker that writes them in batches. The parts meet in values alone: the
-- records of internal/model, and the channels of the hub and of the log writer. Each part is a
-- module here.
--
-- Base: tests, lists, numbers, texts, maps from texts and results that the parts share.
-- Model: internal/model/metrics.go and log.go as records (Metrics, Log), and the instants and
--   durations of package time (Time).
-- Storage.Ring: internal/storage/ringbuffer.go. RingBuffer is the struct and `empty` the zero
--   snapshot; push, get_latest, get_all, get_last_n, get_size, get_capacity and clear are
--   the methods, each one critical section. Inv holds the invariant, Refine the contents in the order
--   of age, Recent the readers and History any sequence of calls.
-- Storage.Writer: internal/storage/log_writer.go. AsyncLogWriter is the queue with the state of the
--   worker, the batches that it has written and the closed channels; send, append, flush and
--   mark_closed are what the cases of its `select` statements do, and Steps.Step lets producers, the
--   worker, the ticker and `Close` act in any order. Calls follows a writer from its start, Shutdown
--   its end.
-- Storage.Sqlite: internal/storage/sqlite.go. The SQL engine is a record of the calls that the code
--   makes (Engine), with what it documents as hypotheses (EngineLaws); row_of and write_batch are the
--   insert, query_logs is the query that `QueryLogs` builds with its arguments. Reads has the rows that
--   `QueryLogs` reads, `PruneOldLogs` and `CountLogs`; RoundTrip writes and reads an entry. Open is
--   `NewSQLiteStorage` on a driver that is a parameter.
-- Storage.Stored: the log writer on its table. Each batch that the writer's steps hand over is
--   written by write_batch (Wrote), and the prune worker deletes between them (Move); Kept compares
--   the table with the accepted entries.
-- Storage.Backup: internal/storage/backup.go, over the files as a function from paths; how each call of
--   the system ends is an argument.
-- Collector.Reader: internal/collector/reader.go, the path that is opened.
-- Collector.Scan: what the code uses of bufio.Scanner and strconv, on texts as lists of code points.
-- Collector.Float: float64 as a parameter, with laws of IEEE 754 arithmetic (FloatLaws) as hypotheses
--   where a theorem needs any; Collector.Fixed is an instance to compute with.
-- Collector.Cpu, Collector.Mem, Collector.Disk, Collector.Net: internal/collector/cpu.go, mem.go,
--   disk.go and net.go, from the text of the /proc file to the record that `Collect` returns.
--   Collector.Rates has what disk.go and net.go share, Collector.Rounds the rounds of `Collect`.
-- Collector.Harvester: internal/collector/log_harvester.go. Targets are the files that `Start` tails,
--   Syslog is `ParseSyslogLine`, LastLines `readLastLines` and Tail the loop of `tailFile`: a Tailer
--   holds the file, the place and the buffer of the reader, `offset` and the lines of the second, and
--   its steps are the polls and the ticks, between writes and truncations by other processes. The
--   parsing of dates by package time is an argument (SyslogClock). Bytes of log files are the code
--   points of ASCII texts.
-- Api.Hub: internal/api/sse.go. SseHub has the channel of each event stream, with the place that its
--   handler has reached and what that has written; offer_member, drop_member and on_register ..
--   on_stop are the cases of `run`, and Steps.Step is the interleaving of `run` with publishers,
--   handlers and `Close`. A send on a closed channel and a second close are `none`.
-- Api.Ingest: `HandleIngestLogs` of internal/api/handler.go with parseRawTextLogs, parseJSONLogs and
--   detectLogLevel. Sink is what it calls; server_sink puts the writer and the hub in its place.
-- Api.Queries: the handlers of internal/api/handler.go that read.
-- Api.Middleware: internal/api/middleware.go, over handlers that return or panic, and the order in
--   which internal/server/server.go applies it.
-- Ui: the choice of a page in internal/ui/embed.go.
-- Server: internal/server/server.go. Config and the settings derived from it; Sampling is
--   `metricSamplingLoop` with the collectors, the ring buffer and the hub that it shares, one list
--   element for each tick. Rounds, Watched, Served and Logging put it together with the parts that
--   it drives. Setup is `NewServer`, with the tickers of the goroutines of its server; Backups is
--   `backupLoop`.
-- Server.Stop: `Shutdown` of internal/server/server.go. Running is the log writer with its table, the
--   hub and the place that `Shutdown` has reached, and Act one action of `Shutdown`, of the log writer
--   or of the hub, in any order. Actions too are that the deadline passes, and that a call of the
--   storage takes its lock, for which `sqlite.Close` waits, or gives it back.
-- Cli: cmd/sugi/main.go, the flags and `parseRetention`.
--
-- Numbers of type uint64 are natural numbers with their wrap-around written out. A text is the list of
-- its code points. A Go map is an association list in the order of first insertion; where the code
-- sorts what it ranges over, so does the model. The clock, /proc and JSON encoding are arguments.
-- Loops run over the lists that they consume, so none needs fuel.
--
-- Not modelled: the pages of the dashboard and the installer; in internal/server/server.go listening and
-- the order in which `Start` starts the goroutines, in internal/api/handler.go the health report,
-- which changes nothing, and the table of routes, in cmd/sugi/main.go the banner; what the code prints and logs. They are input and output, or calls of
-- other libraries.
pub mod Base
pub mod Model
pub mod Storage
pub mod Collector
pub mod Api
pub mod Ui
pub mod Server
pub mod Cli
