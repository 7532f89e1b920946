-- ===== src/Lib.antt =====
-- Weekend Engine: an event-driven activity service on an in-memory message broker that is modelled on
-- Kafka.
--
-- Parts, and the files that model them:
-- Broker: internal/broker/broker.go. `Broker` is the struct of that name, with its maps as
--   association lists; `publish`, `replay`, `dlq`, `topic_names`, `get_stats` and `queue_depth` are the
--   methods. `none` is a panic. Broker/Log is `partition`, Broker/Group is `consumerGroup`, Broker/Fnv
--   is `partitionFor` with FNV-1a in 32 bits. Broker/Invariant, Broker/Logs, Broker/History and
--   Broker/Queries hold the proofs.
-- Broker/Publishing: calls of `Publish` that run at the same time, each cut at its three locks.
-- Broker/Consume: the goroutines that `Subscribe` starts. A step (`Step`) is one move of one goroutine
--   of `consumePartition`, a publication, or a change that another subscriber or group makes; `Reach` is
--   any interleaving of them. `Phase` says where in the loop a goroutine stands. The result of the
--   handler is an input of the move. The `history` of a `System` is no state of the program: it notes
--   which message a handler accepted or the goroutine dead-lettered, and at which offset.
-- Events: internal/events/event.go, without JSON.
-- Storage: internal/storage/store.go. `Store` has the primary map and the two indices;
--   Storage/Indices are the index helpers, Storage/Invariant is the agreement of indices and map,
--   Storage/Updates, Storage/Evict, Storage/Paging and Storage/Stats are about `Put` and `Delete`,
--   `EvictExpired`, the pages of `List`, and `Stats`, and
--   Storage/Candidates and Storage/Search about what `List` and `Search` collect, and Storage/Refines
--   about sequences of calls.
-- Pipeline: internal/pipeline/pipeline.go, with the pipeline that cmd/worker/main.go builds.
-- Metrics: internal/metrics/metrics.go.
-- Middleware: internal/middleware/middleware.go. Middleware.antt has the rate limiter's bucket and
--   `Chain`, Middleware/Stack the wrappers as functions of handlers.
-- Http: package net/http as far as the program uses it. A handler is a function of a request, of the
--   shared objects and of the response so far; `Outcome` says whether it panicked.
-- Scheduler: internal/scheduler/scheduler.go. `Scheduler` is the struct, `System` has the goroutines of
--   `Start` and the mutex too, and `move` is one move of a goroutine, from one `select` to the next;
--   Scheduler/Counts, Scheduler/Waits and Scheduler/Drains hold the proofs.
-- Server: the objects that cmd/api/main.go makes and shares, its jobs, and its handler of messages, which
--   cmd/worker/main.go has too, with the loop of its subscriptions (`subscribe_workers`).
--   Server/Invariant has the steps of the running program (`Step`, `Reach`).
-- Api: the HTTP handlers of cmd/api/main.go, one function each (`handle_create` is
--   `handleCreateEvent`); Api/Routes has the mux and the stack of middleware (`serve`).
-- Config: internal/config/config.go. `load` is `none` where the process ends by `log.Fatal`.
-- Base: lists, maps, Go's integers, strings, times and floats, on which the rest stands.
-- Tests: each theorem at a concrete input, and runs of the operations.
--
-- How they interact: a message that is published to a topic lies in one log; a goroutine of a group
-- hands it to the handler, which runs the pipeline; the last stage puts the event in the store. The
-- HTTP handlers publish events and read and delete those of the store; the jobs of the scheduler
-- evict from the store and copy its size to the metrics.
--
-- Conventions. A method that holds its mutex from start to end is one function. `Publish` takes
-- three locks one after another; it is one function, `publish`, in most of the library, and
-- Broker/Publishing cuts it at its locks; a request, a message and a job are one step of the server
-- each. An int is 64 bits wide. Offsets, lengths and counts that grow by one are bounded by the
-- memory of the process and are natural numbers; a slice of partitions that is longer than `make` can
-- give (`max_slice`, for the 48 bits of address of linux/amd64) is a panic, and memory that runs out
-- below that is not modelled; the product in `List`, which a request controls,
-- and the counters of `Metrics` wrap. Loops are structural recursion on the slice or map that they
-- range over, so no fuel is needed; the endless loop of a goroutine is the relation `Reach`. A map
-- is ranged over in the order of insertion, and `sort.Slice` leaves equal elements in the order of
-- the input; Go leaves both orders open.
--
-- Parameters. `Unicode` is what package strings does from the first byte on that is not ASCII, and
-- `Float64` is float64 with package math, `Strconv` is strconv.ParseFloat and time.ParseDuration,
-- and `Json` is encoding/json on the types that the program gives it. What the clock, uuid and the
-- duration of a call give is an argument too. A theorem holds for all of them unless it says
-- otherwise.
--
-- Not modelled: the text of JSON (a body of a response is the value that is encoded), the listening
-- and the shutdown of the HTTP server, signals, logging, contexts with a deadline (no stage reads
-- one), the fractions of the jitter and of the tickers (a timer fires when it likes), times with a
-- zone other than UTC, and the web frontend. The mux gets clean paths and not /broker/dlq, which it
-- redirects; a body that is longer than `MaxBytesReader` allows is cut there.
pub mod Base
pub mod Broker
pub mod Tests
pub mod Events
pub mod Storage
pub mod Metrics
pub mod Pipeline
pub mod Middleware
pub mod Config
pub mod Http
pub mod Server
pub mod Scheduler
pub mod Api
