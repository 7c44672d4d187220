-- ===== src/Lib.antt =====
-- The asynchronous engine of openpit-go: per-account lanes of tasks, the chains that run on them, and
-- the futures that report to the caller; and the orders, adjustments and locks that its calls carry
-- over the C interface of the native library. Every part of the engine stands on the one before it: a
-- future is resolved by a task, a task waits in a lane of its routing key, a lane's worker runs or
-- aborts it, and a chain is a task that calls the driver and the caller's hooks step by step.
--
-- Base: shared names, Boolean tests on the native numbers, lists.
-- Routing: `routingKey` of asyncengine/strategy.go and its constructors in asyncengine/engine.go.
-- Errors: asyncengine/errors.go, `errors.Is`, `errors.Join` and wrapping as a data type of errors.
-- Future: `Future` of pkg/future/future.go. Future/Steps interleaves the statements of the function that
--   Resolve gives to its `sync.Once`, other calls of Resolve, and the readers, which take the value and
--   the error one after the other; `calls` is history.
-- Driver: `validateDriverResult` of asyncengine/engine.go.
-- Lane: one lane of asyncengine/strategy.go. Lane/Queue has `keyQueue` and every operation on it, each
--   an atomic change of a record, as the code makes it under `mandatoryMu` or `gate`, with
--   `retireIfIdle` of asyncengine/dynamic.go. Lane/System is the step relation of the producers in
--   `sendToQueue`, the worker loop and the stop signals; its `accepted`, `finished` and `marks` are
--   history that no step reads. A call that queues or releases a cleanup changes the backlog in one
--   step and sends the token of `mandatoryWake` in a later one. A producer may take a ticket while a
--   cleanup waits: what `waitForMandatoryCleanup` forbids is allowed here too, so the results hold for
--   more runs than the code has. The submit fence may close with a producer in flight, as in Fence; a
--   send on a closed channel ends the process and is no step. The other modules of Lane hold the
--   invariants and the guarantees.
-- Chain: asyncengine/scenario.go and asyncengine/scenario_admin.go. Chain/Run is the state of a run and
--   its monad: a call returns a value, an error or a panic. Chain/Env has what the chain calls, each
--   function reading the whole history of the run, so hooks, driver and handles may keep any state,
--   answer anything and panic. Chain/Plan is `chainPlan` with `validate`, Chain/Steps, Chain/Check and
--   Chain/Apply are the steps, Chain/Task is `chainTask.execute` with its deferred cleanup, and
--   Chain/Submit is `runChain`. Chain/Keeps, Chain/StepKeeps, Chain/Steady and Chain/Whole are the rules
--   by which a run keeps an invariant; the other modules of Chain hold the results.
-- Reservation: `AsyncReservation` of asyncengine/reservation.go. Reservation/Protocol is the step relation
--   of its reads and its `runInner`; `in_read` and `released` are history. Reservation/Tasks has the
--   lifecycle methods.
-- Fence: the submit fence of asyncengine/strategy.go, with the decrement and the test of `endSubmit` as
--   two steps.
-- Registry: the map of lanes of asyncengine/dynamic.go, with the sections of `getOrCreate`,
--   `cleanupWithoutLiveLane`, `retireIfIdle` and the stop under `s.mu`; a lane is its key and its `closed`
--   flag, and no exclusive section is in progress.
-- Exclusive: `runExclusive` of asyncengine/exclusive.go with `installExclusive` and `withdrawExclusive` of
--   asyncengine/dynamic.go and asyncengine/sharded.go. Exclusive/Protocol is the step relation of the
--   section that holds `exclusiveTurn`, the workers, the creation and retirement of lanes, the cleanups
--   without a lane and the stops. A lane is what a section sees of it: the stage of its worker, and
--   the barriers in its backlog: a barrier of an ended section stays there until the worker gets to it,
--   and returns at once. A section may fail for an aborted barrier in more phases than the code lets it.
--   Exclusive/Invariant has the invariant and Exclusive/Alone the results.
-- Sharded: `shardFor` of asyncengine/sharded.go, with `uint64` products cut to 64 bits.
-- Operations: asyncengine/engine.go and asyncengine/request.go. Operations itself has `StartPreTrade`,
--   `ExecutePreTrade` and `ApplyDropCopy` with their tasks, Operations/Calls the operations that return
--   no handle, each with the routing key of its task and what the task does to the driver, Operations/Request
--   the calls on a request over its native handle, and Operations/Stop the release by a stop. The lane
--   decides what becomes of a task.
-- Lifecycle: the cleanups without a lane of asyncengine/strategy.go, which a section of
--   asyncengine/exclusive.go postpones and a stop waits for; `running` and `owed` are history.
-- Model: model/order.go, model/account_adjustment.go and model/account_adjustment_pnl.go over the plain
--   C structs of internal/native. Model/Param has the values of param/ and model/pnl.go that they are
--   made of, Model/Native the C structs with their setters, and Model/Order and Model/Adjustment the
--   structs of the caller, one module per group of fields, with Whole for the struct of the groups. A
--   view refers to the fields of its order or adjustment, so its methods are functions on these. Each
--   group has a Spec, the fields as options; Refines shows that the structs implement it, RoundTrip
--   what set values read back as, and Retention that the buffers that a C struct points to are kept.
--   An asset is a buffer with its address and bytes, and one read back is its bytes. Decimals and
--   identifiers are numbers, and a C enum has its declared values only.
-- Pretrade: pretrade/lock.go over internal/native/pre_trade_lock.go. The native library is a record of
--   functions on the contents of a lock. Pretrade/Objects has the native objects behind handles, which
--   are created and destroyed, lists and error texts included, Pretrade/Native the binding and
--   Pretrade/Methods the constructors and methods. Pretrade/Calls has their calls in sequence and the
--   specification, a lock as its contents; Pretrade/Reads and Pretrade/Writes show that the methods
--   follow it. A lock that is read or destroyed when it is gone is marked, and fails the call.
-- Examples: runs at concrete inputs.
--
-- Loops are structural: over the steps of a plan, the entries of a backlog, the buffered tasks. No fuel
-- is used; a lane's endless worker loop is a step relation. Times, identities and payloads are numbers;
-- the atomic counters are unbounded, as 2^63 tasks are out of reach.
--
-- Not modelled: the native library, which the engine sees through its driver, and the packages that
-- wrap its handles (what is left of pretrade, marketdata, accounts, configure, reject, tx, internal,
-- param and model); execution reports; the constructors from a borrowed C struct; the observer, which
-- has no effect on the engine; the handles of asyncengine/drop_copy_operation.go.
pub mod Base
pub mod Routing
pub mod Errors
pub mod Future
pub mod Driver
pub mod Lane
pub mod Chain
pub mod Reservation
pub mod Fence
pub mod Sharded
pub mod Registry
pub mod Operations
pub mod Pretrade
pub mod Exclusive
pub mod Lifecycle
pub mod Model
mod Examples
