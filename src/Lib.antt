-- ===== src/Lib.antt =====
-- Job visibility: a simulation and durable services that schedule jobs and project their lifecycle
-- events (EDRs) into a view of every job. The scheduler writes lifecycle events to an outbox
-- within its own transactions, a publisher sends them to a broker, and a projector reduces them,
-- one at a time and in any order of arrival, to the status, attempts, timestamps and findings that
-- the API shows.
--
-- The files, by part of the program:
--
-- - Prelude: shared tests, lists, dictionaries in insertion order, a stable sort, results of
--   code that may raise.
-- - Model: src/job_visibility/model.py. `Event`, `Attempt`, `Finding`, `JobVisibility` are
--   records with the fields of the source; the enumerations are data types.
-- - Reducer: `reduce_visibility` of src/job_visibility/engine.py. `Handlers` has one function
--   for each `_on_…` method, `Rules` the static helpers, `Reduce` the dispatch, the semantic
--   duplicates and the decision. `Terminal`, `Version`, `Stamps` and `Retry` prove.
-- - Engine: `VisibilityEngine` of the same file. `Store` has its state with `apply` and
--   `apply_with_retry`, `Reconcile` the timeout findings, `View` the queries (`get` is
--   `get_job`, `attempts` is `job_attempts`, `search` is `search_jobs`). `Invariant`,
--   `Delivery` and `Optimistic` prove.
-- - Scheduler: src/job_visibility/scheduler. `Types` and `Tables` have the rows and the SQL
--   statements on one row, `Service` the transactions on one job, `Claims` those on many,
--   `Worker` the execution of claims and the polling round. `Rows`, `Fencing`, `Invariant`,
--   `Batches`, `Queue`, `Submission` and `Reachable` prove; `Reachable` has the transactions as
--   a step relation.
-- - Outbox: `OutboxPublisher` of src/job_visibility/outbox/publisher.py. `Leases` has its
--   state, the ends of a transaction and what `_lease` takes, `Publisher` the settling of a
--   record and the round, with every exception that it may meet; `Rows`, `Rounds`, `Delivery`,
--   `Settling` and `Settles` prove.
-- - Chaos: src/job_visibility/chaos. `Rules` has the rules with their bounds, `Injector` the
--   counting injector; `Counts` proves.
-- - Repository: src/job_visibility/persistence/memory.py. `Memory` has the operations; `Saves`
--   proves.
-- - Workload: src/job_visibility/scheduler/handlers.py. `Fibonacci` has the fast doubling,
--   `Handlers` the handlers and the registry (`dispatch` is its `execute`); `Doubling` and
--   `Values` prove.
-- - Config: src/job_visibility/config.py, and what src/job_visibility/runtime.py makes of it.
--   `Groups` has the fields of the groups of settings, their defaults and the tests of their
--   construction (`check_…`), `Environment` the readers of the environment, `Roles` the worker,
--   the service and the publisher that the roles build; `Accepted` proves.
-- - Cassandra: src/job_visibility/scheduler/cassandra_client.py and
--   src/job_visibility/scheduler/cassandra_workload.py. `Records` has the conditional
--   statements on one record, `Client` `apply_once` with every exception that it may meet,
--   `Handler` the selection and the handler, `Driver` the client that the handler is given.
--   `Retries` proves what calls for one operation do, `Effects` what several operations do,
--   `Bounds` and `Selection` what the handler answers.
-- - Journal: src/job_visibility/edr_store and src/job_visibility/outbox/serialization.py.
--   `Wire` has the wire form of an event, `Parse` its reading, `Tables` the rows, `Projector`
--   the projection worker (`run_round` is its `run_once`), `Reader` the queries (`read_job` is
--   `get`). `RoundTrip` proves what the wire keeps; `Current`, `Rounds`, `Reachable`, `Rebuild`
--   and `Consistency` what every writer of the tables keeps, with the writers as a step
--   relation; `Logs`, `Replays`, `Sound`, `Progress`, `Liveness` and `Restores` that the
--   projection of a sound journal succeeds; `Malformed` what one that is not sound does, and
--   `Interleaving` what two rounds on one job may do to each other.
-- - Health: src/job_visibility/observability/health.py. `Checks` has the checks and the verdict
--   over the databases of `Scheduler` and `Journal`; `Ready` proves.
-- - Api: src/job_visibility/api.py. `Submission` has the handler of a submission, `Ingestion`
--   that of an EDR with src/job_visibility/edr_store/ingress.py, `Queries` those of the
--   queries; `Retries` proves.
-- - Simulation: the clock and the transport of src/job_visibility/simulation.py. `Clock` and
--   `Transport` have the operations.
--
-- A `datetime` is a natural number of microseconds. A handler of an event works on a copy of the
-- job, so what mutates the job is a function to the new job; a method of the engine returns the
-- new engine beside its result, also where it raises. The literals that the program writes into
-- the status of an attempt, the code of a finding and the decision of a projection are data types.
--
-- The SQL text of the scheduler is translated statement by statement. What the database and the
-- libraries give is an argument: the readings of the clock, the UUIDs in the order in which they
-- are drawn, the rows that other transactions lock, the checkpoints at which a fault injector
-- raises, what a handler does, and what the broker answers. A transaction that raises answers with
-- the database that it began with; those of the publisher may also raise after their commit, when
-- only the answer is lost. A wait of the publisher is a whole number of microseconds, and a
-- product of a float and 2**attempts raises from 1024 attempts on. An outbox row holds the event
-- in place of the JSON text that is written of it.
--
-- A call of `apply_once` has its conditions as an argument: which of its statements raise, whether
-- before or after their effect, and what other clients do in between. A round of the projection
-- worker is one transaction and one step, which is what a round that runs alone does: `Reaches`
-- has no two rounds at once. `Interleaving` has two, where the writes for a row come after the
-- round of another worker. A decision about an event that the journal does not have violates the
-- foreign key of `projection_decisions` and ends the round. A payload of the journal is a JSON
-- object of scalars, a list of keys and values. The ISO text of a time is its zone beside the date
-- and time of day that the datetime library writes and reads, which stand for themselves: the
-- exchange of `+00:00` and `Z` is the code of `iso` and `_time`. A text without a zone, and a
-- value of another JSON type than the schema of the topic gives its key, are outside the model.
--
-- The recursions follow a list or the number of retries left, but for two: the fast doubling takes
-- its number as fuel, as each step halves it, and the loop of `fibonacci_handler` three more than
-- its limit, as the Fibonacci number two places beyond a limit exceeds it.
--
-- Not modelled: the rendering of times and responses as text and JSON, the search of the HTTP
-- interface, the settings of databases and the configuration as a whole, the connections to
-- PostgreSQL, Kafka and Cassandra, the loop around the polling round, the event factory and the
-- polling scheduler of src/job_visibility/simulation.py (its delivery of a burst is `apply_all` of
-- `Engine`), the scenario scripts and the tools for tests and experiments.
pub mod Prelude
pub mod Model
pub mod Reducer
pub mod Engine
pub mod Repository
pub mod Simulation
pub mod Chaos
pub mod Scheduler
pub mod Outbox
pub mod Api
pub mod Cassandra
pub mod Config
pub mod Health
pub mod Journal
pub mod Workload
