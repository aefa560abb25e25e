-- ===== src/Lib.antt =====
-- A model of the orchestration service: a worker that takes build.succeeded events from a queue, applies
-- the build to a Kubernetes cluster, waits for its rollout, and publishes deploy.succeeded or
-- deploy.failed with progress events in between.
--
-- Parts, and the files that model them:
--   names.go            Names: DNS labels, namespaces, hosts, the request and the target of an event.
--   config.go           Config: the record `Config`; `loadConfig` and its helpers (Load), what the
--                       consumer relies on in the settings (Ready).
--   events.go           Events: the payloads (Types), the constructors (Build), JSON (Wire).
--   rollout.go          Rollout: status of a Deployment and `WaitForRollout`; Errors: the error types,
--                       `isRetriableDeployError` and, from consumer.go, `isTransientRolloutCheckError`.
--   ledger.go, migrations/001_stage_ledger.sql
--                       Ledger: the table and its statements; Calls are sequences of them.
--   consumer.go         Consumer: World (what it acts on), Publishing (the publishing helpers, the lease
--                       renewal), Handler (`handleMessage`, `publishRolloutSuccess`, `completeFailure`,
--                       `publishStored`), Delivery (`processDelivery`, `scheduleRetry`, the dead letter
--                       copy); Events/Stored has `deployResultEvents`.
--                       Receiving is the loop of `Start`. Rules, Outcomes, Rows and Handler/Written say what
--                       pieces of it keep, of the log and of the ledger's rows.
--   reconciler.go       Reconciler: Objects and Desired (what is asked for), Api (the calls), Registry,
--                       Namespaces and Apply (the `ensure` functions), Deploy. Triples and Frames are
--                       rules for pieces of it, Steps applies them; Ownership, Writes, Applied,
--                       PullSecret, Outcome and Environment say what the log of a run shows.
--   rabbit_publisher.go Publisher: Channel (what amqp091-go gives), Publish, Attribution.
--   consumer.go, rabbit_publisher.go, ledger.go
--                       Wiring: the calls of the start-up (Link), `NewDeployConsumer` and what it calls
--                       (Start), what is open after a log (Stack, Parts, Closing), which
--                       queues are declared then (Growing, Declared).
--   k8s_client.go, main.go
--                       Wiring/Process: `NewKubernetesClient`, and the health endpoint.
-- Base, Text and Json are shared: numbers, integers, texts and JSON values. A definition has the name of
-- its Go function in snake case, and a part of a function that is named by itself has a comment.
--
-- A delivery goes through the parts in this order: `process_delivery` calls `handle_message`, which
-- decodes the event (Events), computes the target (Names), claims the stage (Ledger), calls the cluster,
-- classes its errors (Errors), persists the outcome (Ledger) and publishes it (Publishing); the outcome
-- then decides between an ack, a retry queue and the dead letter queue.
--
-- How it is modelled:
--   Texts are lists of code points of valid UTF-8; `utf8` gives their bytes where the code counts bytes,
--   and labels are ASCII. Lower-casing beyond ASCII is a table, SHA-256, `os.Getenv` and
--   `time.ParseDuration` are functions, and the clock is two functions of the number of calls made so far.
--   Texts of JSON are not modelled: a body or a column is a JSON value, or none where it is malformed.
--   Field names, the folding of keys, omitted fields and the decoding into structs are modelled.
--   A Go error is its chain. The attempt of a message wraps at 64 bits where it is counted and at 32 in
--   its header; the attempt of a ledger row, a count of claims, is not bounded. A lease keeps its
--   nanoseconds, where the column keeps microseconds. The events of a stored result are published again
--   as they are, without the rounding of numbers that decoding and encoding them may do.
--   The ledger is a function of the primary key. A statement, and the transaction of `Claim`, is one
--   step, since the row is locked in it; it can fail with nothing done, or with its confirmation lost.
--   Other workers, and the renewal goroutine of this one, make any ledger calls before each call that
--   the consumer makes (`Environment.background`).
--   The broker, the database and the cluster answer as an `Environment` says, by the number of the call;
--   a `World` has the ledger, that number, and the log of what was done, newest first. Logging is left
--   out. A context is live, or ended with its error: package database/sql refuses a statement under one
--   that has ended. The effect of a ledger statement in the log is read off the row that it leaves
--   (`read_back`); an UPDATE that finds no row is `missed`.
--   A deadline that passes during a call is an error of that call.
--   `wait_for_rollout` takes the polls of the loop as a list, and is `none` where the list ends before
--   the loop returns; the code gives each loop a context with a deadline, so some poll of it meets an
--   ended context. `digits`, which writes a number in decimal, takes n + 1 rounds for a number n, which
--   is enough, since each divides it by ten. No other function needs fuel.
--   The Kubernetes API of the reconciler is a `Cluster`: its state is unknown, and its calls answer
--   anything; a log has the calls with their answers, newest first. An object is a record of the fields
--   that the code sets or reads, a Go map a list with distinct keys, a quantity the text that it is parsed
--   from, and the data of a secret the JSON value. `retry.RetryOnConflict` is a parameter; that it runs
--   its function again while that ends in a conflict is a hypothesis where a theorem needs it. The wait
--   for a deletion follows a `Schedule`, which ends, since the code sets a timer of 60 seconds.
--   The handler of consumer.go calls `Deploy` through an interface: its answer is the environment's
--   (Consumer/Handler/Foreign joins the two for one case).
--   The channel of the publisher is a `Broker` whose calls answer anything; `publish` runs under a lock,
--   so publishes follow each other. In the wiring each call is answered by its number.
--
-- Not modelled: of main.go the start of the goroutines, the signals and the shutdown, which are input
-- and output; the propagation policy of a delete, the flags of declarations, and logging.
pub mod Base
pub mod Text
pub mod Errors
pub mod Json
pub mod Config
pub mod Events
pub mod Names
pub mod Ledger
pub mod Rollout
pub mod Reconciler
pub mod Publisher
pub mod Wiring
pub mod Consumer
