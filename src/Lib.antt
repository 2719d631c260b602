-- ===== src/Lib.antt =====
-- The release of calibrated sensors: a service that takes a batch of sensors through registration, a
-- locked plan of reference points, readings, recalibration, review and the issue of a credential, and
-- keeps every change as an event of a hash chain.
--
-- The parts, and the files that model them:
-- - Calibration: internal/domain/calibration. Types, Errors, Lifecycle, Batch, Snapshot, Sensor,
--   Profile, Measurement, Review, Credential and Validation stand for the files of these names, and
--   each function for the one of its name (`lock_profile` for `LockProfile`, `find_batch` for
--   `Snapshot.Batch`, `check_mutable` for `Mutable`). Lifecycle/Paths, Profile/Locked, Review/Duties
--   and Effects hold the lemmas on them.
-- - Evaluation: internal/policy/evaluation. Statistics, Findings, Coverage, Evaluator and
--   Recalibration, with lemmas in the files below them.
-- - Ledger: internal/audit/ledger. Event, Chain, Projection, Inspection and Credential.
-- - JsonStore: internal/storage/jsonstore. Model holds the state of `Store` and the two files, Commit
--   is `Commit`, Recovery is `recover`, Reads has the queries of store.go and verify.go, Lines the
--   decoding of the ledger's lines, and Files `Open` on the two files as they are on the disk.
-- - Workflow: internal/application/workflow. Commands has the commands, BatchCommands,
--   CalibrationCommands and ReleaseCommands the mutations that the service hands to `Commit`, and
--   Service the checks before and the decoding after it. Readiness, Queries and WorkQueue stand for
--   readiness.go, queries.go and work_queue.go. Retries, Durability, Views, Release and the
--   files below the three hold the lemmas on them.
-- - HttpApi: internal/transport/httpapi. Codec is codec.go, Router the table of router.go with the
--   handlers of handlers_mutation.go and handlers_query.go, ListQuery the query of the list.
--   Client has the calls of the self-check's client and Selfcheck its scenario, `RunSelfcheck` and the
--   wait for the server, of selfcheck.go; in the files below it the scenario meets a network that keeps
--   a record of requests and answers (Exchanges, Trace, Waiting), and the handlers behind a network
--   (Network, Released).
-- - Process: cmd/server/main.go, `run` and `defaultAddr`. Process/Cleanup is about its directory.
-- - Exec: steps that change a state and may end in an error, for the client and the process.
-- - Prelude and Float64: lists, Boolean tests, maps, 64-bit integers, and exact IEEE doubles.
-- - Tests: sample data, and the theorems at inputs that meet their hypotheses.
--
-- How they interact: a method of the service checks the actor, the key and the version, and gives the
-- store a request with a mutation. The store looks the key up, compares the version, runs the mutation
-- on a copy of the projection, validates the copy, and appends an event with the whole new projection
-- to the ledger before it takes the copy over and replaces the snapshot file. The mutation calls the
-- domain, the evaluator and the ledger's digest of a frozen batch. A handler of the HTTP interface
-- decodes a body, calls the service and turns its result or its error into an answer. The process opens
-- the store, and serves the handlers or runs the self-check against them.
--
-- How the source is modelled:
-- - A function that changes a snapshot through a pointer returns the new snapshot. One that ends in an
--   error returns the error alone: `Commit` drops its copy then.
-- - `Result` is a value with an error. An error is its code and the format of its message, without the
--   arguments of the format and without the prefixes that callers wrap around it.
-- - `int64` and `int` are bit patterns below 2 ^ 64, with a signed order and an increment that wraps.
-- - A double is NaN, an infinity, or a sign with a multiple of 2 ^ -1074. The operations round the
--   exact result to the nearest, ties to even. The unit in the last place is found on fuel, by 2100
--   doublings from 2 ^ -1074: enough for all magnitudes that do not overflow whatever the unit is.
-- - A Go map is an association list in the order of an iteration, which Go leaves open, without nil
--   pointers. `sort` is an insertion sort by the same order.
-- - A time is a count of nanoseconds, and all calls of `now` in one command give one time.
-- - JSON, SHA-256, the formatting of floats, random ids and the id of a new batch are parameters
--   (`Codec`, `Library`, `Host`). The theorems that need something of them name it. The random ids are
--   a function of a `Host`; where there are several calls, each has ids of its own (`drawing`).
-- - The mutex of the store makes each call one step. The end of each file operation is a parameter
--   (`Faults`): the line of an event is written, is not, or is written and not confirmed; the snapshot
--   file is replaced, kept, or replaced and not confirmed. A line that is torn is not modelled.
-- - `MutationResponse` and `MeasurementBatchResponse` are one record. The fingerprint of a single
--   measurement is that of the batch of one that it is turned into.
-- - The text of a cursor, the digest of a filter (`CursorCodec`), the JSON of the bodies (`Bodies`), the
--   numbers and times of a query (`QueryParser`) and the pattern that a request matches are parameters.
-- - `sort.Search` is its loop on fuel, as many rounds as there are elements: each round drops one at
--   least.
-- - `AuditTrail` reads the projection and the events under two locks; the model has no commit between
--   them. A handler runs as one step as well.
-- - The network of the self-check is a parameter with a state of its own, which takes a method, a path
--   and a body, and gives a status and a text or an error. The wait for the server is a loop with the
--   ticks that come before the deadline: it makes at most one call more than there are ticks.
-- - The process is a list of effects on its surroundings beside its result, the directory that
--   `jsonstore.Open` makes where there is none among them. What the operating system
--   does is a record of functions (`World`).
-- - A snapshot file that cannot be opened or decoded is a file of schema version 0 for `recover`, which
--   looks at a file only to tell a fresh one from a stale or missing one.
--
-- Not modelled: the headers of the answers and their JSON, the server with its timeouts and its
-- shutdown, the flags of the process and its log (input and output), and the id that a batch gets from
-- its author and key. The ledger file of a `Store` is a list of events: that its lines decode to them,
-- each below the 32 MiB of the scanner's buffer, is a hypothesis where a theorem speaks of both.
pub mod Prelude
pub mod Float64
pub mod Calibration
pub mod Evaluation
pub mod Ledger
pub mod JsonStore
pub mod Workflow
pub mod Exec
pub mod HttpApi
pub mod Process
pub mod Tests
