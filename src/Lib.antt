-- ===== src/Lib.antt =====
-- localdb: a local search index over documents, kept by a daemon and used from a command line.
--
-- The program is a workspace of crates: `core` holds the data types, the errors and the ingestion
-- and search logic behind traits; `server` the daemon with its job queue and its scheduler; `fetch`
-- the guarded HTTP client; `cli` the client that submits index jobs and attaches to them; `mcp`,
-- `extract`, `embed`, `ingest` and `store-libsql` the adapters. An index job is created by a client
-- or the scheduler, waits in the queue, is run by a worker, and its end is reported to every client
-- that is attached to it, as a state with an error code and a message.
--
-- Core.Errors is core/src/error.rs: `Error` with all its variants, `code`, `from_code`,
-- `raw_message` and `exit_code`; Core.Errors.Wire is about what survives a trip as code and message.
-- Core.Jobs is the index job of core/src/types.rs and its transitions in core/src/ingestion.rs.
-- Core.Progress is core/src/progress.rs. The clock and the generator of ids are arguments.
--
-- Core.Metadata, Core.Resource, Core.Store and Core.Citation are the data of core/src/metadata.rs,
-- block.rs, types.rs, store.rs and citation.rs; Core.Ids is core/src/ids.rs, with BLAKE3 and the
-- JSON printer as parameters; Core.Chunking the presets of core/src/chunker.
--
-- Core.Ingestion is a run over one source: Services is what the run calls and this repository's core
-- does not implement (the store, the embedder, the chunker, the fetcher, the clock), each an effect:
-- a function from the state of a world to the next state and an answer, which may be an error. Index
-- is the index of deps.rs under core/src/ingestion, Pipeline is `index_resource` of pipeline.rs,
-- Callback is pipeline/callback.rs with Documents and Gate for its two halves, Due for the rechecks
-- that are due; Recheck is recheck.rs, Liveness liveness.rs, and Sweep and Run are
-- `run_source_ingestion` of core/src/ingestion.rs: Sweep the removals with their guards, Run what
-- comes before. The ingestor, which another crate implements, is the list of the calls that it makes
-- of its callback, with the enumeration that it reports. An instant is in milliseconds.
--
-- Core.Search is core/src/search.rs: the fusion, and in Query the orchestrator with its fan-out, over
-- stores and an embedder that are effects as well. Core.Dates is core/src/dates.rs, with trimming and
-- the RFC 3339 parser as parameters, and Core.Dates.Filters the metadata filters of store.rs; Core.Search.Filters
-- is core/src/search_filters.rs, with chrono and humantime as parameters. An `f32`
-- or `f64` is its bit pattern, and the arithmetic and comparison of floats are parameters. A stable
-- sort is an insertion sort that puts an element behind its equals.
--
-- All loops are over lists, so no fuel is used. The counters of a run, `u64` in the code, are
-- numbers, since each counts documents that were met one at a time.
--
-- Server.JobQueue is server/src/job_queue.rs. Its State holds what stands behind the locks
-- (`registry`, `inflight`, `handles`), the channel to the workers, and the tokens and broadcast
-- channels, which are shared by their clones and so are addresses into the state. Evict is
-- `evict_oldest_terminal_jobs_over_cap`, Submit `submit`, Cancel `cancel`, `get_job` and
-- `list_jobs`, Worker `run_worker` and `process_job`. Each of these is split where the code takes
-- and releases a lock: a definition is one critical section, and `submit` and `process_job` compose
-- them. World interleaves the sections of any number of jobs, workers and clients: an `Action`
-- names the section that runs next and what the environment gives it, and `run` follows a list of
-- actions. After a failed send the code holds the lock of `inflight` to the end of the branch; World
-- lets others run between its sections, and so has more interleavings than the program. The list of
-- actions is finite and needs no fuel. The text of the eviction cutoff is an argument, and a
-- `HashMap` is an association list, of which no more than `lookup`, `insert`, `remove` and the
-- values is used. The lag of slow subscribers is not modelled: a broadcast channel keeps all that
-- was sent.
--
-- Server.Scheduler is server/src/scheduler.rs: the records of the `url` sources, and the sections of
-- a tick, of the registrations and of the watchers, which run in any order but that of one tick. The
-- queue's answers and the times at which watchers wake are what the actions carry.
--
-- Fetch.Destination is fetch/src/destination.rs: the predicate on addresses, the filter of resolved
-- addresses, the guarded resolver and the redirect policy. An address is its octets or segments;
-- parsing and printing one belong to the standard library and are parameters. The number of
-- requests before a hop is the length that reqwest gives.
--
-- Fetch.Http is fetch/src/http: Limiter is limiter.rs, with the token bucket of the `governor` crate
-- as a parameter, and Retry is retry.rs, with the date parser as a parameter. A `Duration` and an
-- `Instant` are whole numbers of nanoseconds, and a 64-bit counter keeps its wrap-around. The list
-- of the failures of one retry loop is what `backon` and the server make of it.
--
-- Cli.JobAttach is `finish_job` of cli/src/job_attach.rs with the summary of cli/src/cmds/index.rs.
--
-- Prelude has the shared notation: texts as lists of bytes, Boolean tests on the native numbers,
-- association lists, and the list functions over the native numbers.
--
-- Not modelled: storage (SQL run by libsql), embedders, extractors, the reqwest client, axum routes,
-- the MCP protocol, rendering and argument parsing, all of them calls of libraries; and, of the
-- program's own logic, the splitting of blocks into chunks, the enumeration of paths, the
-- configuration, and logging.
pub mod Prelude
pub mod Core
pub mod Server
pub mod Cli
pub mod Fetch
