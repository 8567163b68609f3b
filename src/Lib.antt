-- ===== src/Lib.antt =====
-- The Go programs of applications/: the word counter wc-go, the document pipeline doc-pipeline, the
-- proxy reverse-proxy, the log-aggregator, sig-counter and fs-monitor, and db-query; and of labs/,
-- the counters of labs 0104 and 0105, the ping-pong of lab 0105, the client and the server of lab
-- 0102, and the workers of labs 0101 and 0103 with the server of lab 0103.
--
-- Base: numbers, lists, integers, bags of items (Totals).
--
-- Wc (applications/wc-go/processing). `LineProcessor` has one constructor for each counter, with
-- its value; `process` is `Process`, `process_bytes` is `processBytes`, with its loop
-- `newline_loop` and its rest `last_line`. Wc.Strategies has `InputProcessor.Run` (`run`) and the
-- functions that it dispatches to; what the operating system and bufio answer is the record
-- `System`. The loops over the runes of a line run on fuel, the length of the line: every rune
-- takes at least one byte. Wc.Counting says what the counts should be, without the loops.
-- Wc.Command (cmd/cli.go): the command, from its arguments to what it prints.
--
-- DocPipeline (applications/doc-pipeline). Load: `generateRandomDataLoadingRequest` (`generate`)
-- and `LoadData` (`load_data`); Load.Generator: the goroutine of `LoadGenerator.Run`; Documents:
-- `Tokenize` and `Embed`; Index: `DedupAndIndex`, one call at a time, and Index.Concurrent: calls of it
-- by several goroutines; Stage: `NewStage`, and `Run`
-- as a transition system, where a step is one communication or one shared access of one goroutine,
-- in any order; Pipeline: the stages of main.go in a row, where a receive of one stage takes from
-- the channel of the stage before; Indexing: the index stage with its worker,
-- and the loop that prints the results; Program: the generator, the line and the index stage as one
-- system, whose steps agree on what they do to the channels between them (`Effect`); Telemetry: `InitMetrics` and the
-- methods of the metrics. A panic is `none`. Text is a list of bytes, and a Go `int` is an integer
-- without a bound.
--
-- ReverseProxy (applications/reverse-proxy). Pool: `ConnPool`, the two connectors and
-- `resolveConnector`; Pool.Sessions: `GoroutineEngine.Serve` as a transition system of the sessions
-- that it starts. Engine: `EpollEngine`, whose table of connections is a function of the
-- descriptor, with `Serve`, `handleEvent` and `closeConn`; the answers of system calls are
-- arguments. Command: the flags and the accept loop of cmd/proxy. Exchange: the client of
-- cmd/client, a session of the goroutine engine and the echo server of cmd/echo, joined by two
-- connections whose bytes travel in pieces of any size. Sharing: such sessions with one pool.
-- Engine.System: the accesses of its
-- goroutines to the table, with the descriptors that the kernel gives and takes, and those that a
-- finalizer closes.
--
-- LogAggregator (applications/log-aggregator). Wire: what the publishers write, the receivers send
-- on and the file output stores; a channel is the list of what goes through it, the `bufio.Writer` of
-- the output is a parameter, and which datagrams arrive, how often and in what order, is an
-- argument. Registry: the table
-- of IPC types. Producing: `Publish` of the five publishers, and the two goroutines of
-- `Producer.Run`, as a transition system. Collecting: `Receive` of the five receivers, and the
-- goroutines of `Aggregator.Run`, likewise; a panic ends the program, and is a predicate on states
-- (`Panics`). Commands: the arguments of the two programs.
--
-- SigCounter (applications/sig-counter): the counter of ticks, and the signals that print it, reset
-- it and end the program, as one sequence of events; its arithmetic is modulo 2^64.
--
-- PingPong (labs/0105-go-locking-vs-channels/pingpong.go): the token that goes round, by a mutex or
-- by channels, as two transition systems. PingPong.Monitor: the mutex with the condition variable,
-- access by access, where a goroutine that waits wakes only after a broadcast.
--
-- SharedCounter (labs/0104-go-atomics-vs-mutex-contention/counter.go and
-- labs/0105-go-locking-vs-channels/counter.go): goroutines that increment one counter, by an atomic
-- addition, under a mutex, or through one owner behind a channel; SharedCounter.Refinement has the
-- specification, a counter with atomic increments.
--
-- Netpoller (labs/0102-go-netpoller-epoll): the batches of client.go, with the number of
-- connections as the fuel of the loop, and its answer to a burst; Netpoller.Server: server.go.
--
-- BlockingWorkers (labs/0103-go-blocking-syscalls-vs-network-io/worker.go): the goroutines that are
-- started, in rounds, with their number as the fuel. BlockingWorkers.Sleeping: how long the
-- two workers block that sleep, with the product that wraps around; Sleep, NsecToTimespec and
-- nanosleep are parameters. BlockingWorkers.Delay: the network worker and the goroutine of
-- delay-server.go that serves it.
--
-- CpuWorkers (labs/0101-go-gomaxprocs-cgroups/main.go): the workers that count hashes, and the
-- report of their rate; a 64-bit counter is taken modulo 2^64.
--
-- DbQuery (applications/db-query/main.go): the handler of /users.
--
-- FsMonitor (applications/fs-monitor/tracking/tracker.go): the directories that `NewTracker`
-- watches, where the calls that `filepath.WalkDir` makes are an argument, and what `Run` logs.
--
-- Not modelled: the listeners of the servers; logging, and the reports once a second but for that of
-- lab 0101; HTTP servers; flags and variables whose values only choose an address;
-- times and schedules. Code of the standard library and of other modules (JSON, bufio, hnsw,
-- floating point, system calls) is a parameter, with what is documented of it as a hypothesis.
mod Base
pub mod Wc
pub mod DocPipeline
pub mod ReverseProxy
pub mod LogAggregator
pub mod SigCounter
pub mod PingPong
pub mod SharedCounter
pub mod Netpoller
pub mod BlockingWorkers
pub mod FsMonitor
pub mod DbQuery
pub mod CpuWorkers
