-- ===== src/Lib.antt =====
-- A verification library for go-orchestrator, a Go library that runs sagas: a saga is a list of
-- steps, each with an action and perhaps a compensation that undoes it. The engine runs the actions
-- in order and stores every change of a status; if a step fails it runs the compensations of the
-- steps before it, last first. After a crash a recovery manager resumes what was stored.
--
-- The files, and the code that each is about:
--   Status        status.go, step_status.go, transitions.go: statuses and transition tables.
--   Errors        errors.go, and the errors of lock.go, store.go and recovery.go: one data type with
--                 the texts and `errors.Is`.
--   Context       idempotency.go, and the part of Go's context that the engine uses.
--   Execution     execution.go, step_execution.go: the stored records and their transitions.
--   Events        events.go: event types. Interfaces has the publisher and MultiPublisher.
--   Interfaces    store.go, lock.go, observability.go and the interface of retry.go.
--   Retry         retry.go: the retry policies.
--   Definition    definition.go, step.go, options.go: how a saga is put together. Options has the
--                 checks for nil and the whole chain of New and AddStep.
--   Engine        execute.go. Monad has the state of a run and Call, the record of the calls made to
--                 the outside. Persist is save, transitionExec and transitionStep; Notify the spans,
--                 events, logs and metrics; Attempts is runStep, callAction and sleepOrDone;
--                 Compensate is abort, compensate, finishCompensating and resumeCompensating; Running
--                 is resumeRunning, and Resume is resume and Execute. Shapes says which statuses
--                 can stand together, Logic has the rules for what a function ensures, and Safety
--                 applies them, with a child for each part of the engine. Rollback follows
--                 compensate step by step, Spending counts the actions of runStep, and Fuel shows
--                 that its loop ends. Kept is a rule for invariants, proved once for all functions
--                 of the engine; Invariants applies it. Landing follows what has been saved when a
--                 function returns, and Fold compares a run with a saga as a function.
--   Recovery      recovery.go: the manager, and Recover.
--   Idgen         internal/idgen/idgen.go: New, with rand.Read of crypto/rand as a parameter.
--   Memory        store/memory/memory.go: the in-memory store with its leases. Backend is the store as
--                 the Store, Locker and Lister of the engine, with whole runs on it, and Exclusion
--                 has interleavings of its methods.
--   Tests         runs of small sagas, and the theorems at concrete inputs.
--
-- A function keeps its Go name in snake case; a loop or a switch inside one is a helper of its own.
-- The engine is written in a state monad with panics. Its state is the world outside, the execution
-- that `exec` points at, the address of the next error (errors.Is compares the pointers of timeout
-- errors), and the calls and events so far, each event with the calls before it, which the engine
-- never reads. `any` is a type of data, with none for nil.
--
-- Outside code is a record of functions on the world: Runtime has Go's clock, contexts, sleep and
-- random identifiers; Store, Locker, EventPublisher, Logger, Metrics, Tracer and RetryPolicy are the
-- interfaces. The records fix a little of them: MaxAttempts is a constant, as its doc comment says,
-- where the code asks for it in each round; the context that StartSpan returns is a child of the one it
-- was given, with its values and its end; and only a publisher can panic, which the engine recovers
-- from. Nothing else is assumed of them but what a theorem says: they may fail, or change the world,
-- at every call. For a run on the in-memory store the store is at a place in the world, and the
-- theorem says that nothing but its methods changes the entry of the run's ID there. Before
-- each look at the clock or at a context the world may move on by itself, which stands for other
-- goroutines and for time.
--
-- A duration is a 64-bit integer, and its doubling wraps; a time is a number of nanoseconds, and
-- adding to it does not wrap. The loop of runStep has as much fuel as its policy has attempts, and
-- one more: the test against the maximum ends it at that attempt, or at the first if the maximum is
-- below 1. All other loops are recursion on a list or on an index.
--
-- Not modelled: an action or compensation that panics or never returns, a panic inside a store, locker,
-- logger, tracer, metrics or retry policy, a MaxAttempts that changes, a tracer that returns an
-- unrelated context, a nil policy given to WithStepRetryPolicy, the float arithmetic of jitter,
-- Store.Get of the engine's own stores (the engine does not call it), doc.go and the examples.
pub mod Prelude
pub mod Status
pub mod Errors
pub mod Context
pub mod Execution
pub mod Events
pub mod Interfaces
pub mod Retry
pub mod Definition
pub mod Engine
pub mod Recovery
pub mod Idgen
pub mod Memory
pub mod Tests
