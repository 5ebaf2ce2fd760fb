-- ===== src/Lib.antt =====
-- PocketFlowGo, a workflow engine: what its engine, its store and its handlers do to the tables.
--
-- The program. A scheduler (cmd/scheduler/main.go) leases a task from the store
-- (pkg/store/sqlstore/sqlite.go) and lets the engine (pkg/engine) take one step of the task's flow
-- after the other. Each step runs the handler of the current node, records a run, and moves the task
-- along an edge. Workers that pull take their work from a queue in the store, through the HTTP
-- handlers (pkg/server/server.go), which also create, cancel and signal tasks.
--
-- The files. A function keeps its name, in snake case: `RunOnce` is `run_once`.
--   Prelude            shared names: Boolean tests, lists, integers, texts, decimal numerals
--   Value              what a Go interface{} holds: null, Booleans, numbers, texts, slices, maps
--   Runtime            floating point numbers and JSON, which Go's library decides: parameters
--   Path, Expr, Flow   pkg/engine/util.go, expr.go and types.go: paths, expressions, flows
--   Error              the errors that the engine tells apart
--   Store              pkg/store/store.go: the rows; Store/Sql is what the statements use of SQL,
--                      and Workers, Flows, Tasks, Runs and Queue are the tables of sqlite.go;
--                      Listing is the pages for the user interface, and Trace the calls of the
--                      interface `Store` and the tables that sequences of them lead to
--   Engine             the actions that handlers are made of; Core and RunOnce are core.go, Choice,
--                      Waiting, Executor, Fanout, Parallel, Foreach and Subflow the node kinds
--   Server             the handlers of pkg/server/server.go; Listing holds those that read, and the
--                      creation of flows and versions
--   Worker             what runs the work: Builtins is pkg/engine/local_func.go, Http is
--                      cmd/worker/main.go, Async is cmd/worker-async/main.go, with the interface
--                      QueueApi, which Async/Served fills by the server's handlers, and Registry is
--                      pkg/flow/registry.go
--   Scheduler          a round of each loop of cmd/scheduler/main.go
--   Client             the programs that call the API: Cli is cmd/cli/main.go, Loader and its child
--                      Params are cmd/loadexamples/main.go
--   Examples           a small installation, at which the theorems are applied
-- Theorems stand in the modules called Laws, in Store/Tasks/Leases, the children of Store/Trace,
-- the children of Engine/Core, the children of Engine/Fanout, Engine/Parallel/Round and
-- Foreach/Round, the children of Engine/Executor/Node and Engine/Executor/Queued,
-- the other children of Engine/RunOnce, Store/Tasks/Joined, the children of Scheduler,
-- Client/Cli/Watch, Server/Workers/Alive, Worker/Async/Handed and RoundTrip, Worker/Http/Load and
-- Path/Segments.
--
-- The parts meet in four places. Schedulers, workers and requests interleave as a sequence of store
-- calls, the relation `Reach` of Store/Trace. Work that the engine queues comes back to it by way of
-- a worker and the server, which Worker/Async/RoundTrip follows from end to end. A round of the
-- scheduler leases a task from the store and has the engine step it until it is done, which
-- Scheduler/Round follows through RunOnce, the dispatch and the handlers. And the command line client
-- makes a flow, its version and a task by way of the server, in Client/Cli/Laws.
--
-- The state. A table is the list of its rows, in the order of their insertion, and a statement is a
-- function from tables to tables, taken as atomic. A handler is a function from a world, which is
-- the tables and a counter, to a result and a new world, or to a panic, or to a loop that does not
-- end. Every look at the outside (the clock, a fresh id, an HTTP worker, a process, a registered
-- function) advances the counter, and the answer is a function of it that the record `Engine` holds
-- as a parameter. Time does not have to advance between two readings.
--
-- Bounds. Integers of the flow are ℤ without a width, but an index in a path must fit 64 bits, as
-- strconv.Atoi demands. The attempts of an executor node are counted down from max_retries + 1. The
-- loops on max_attempts have no bound where it is negative; they run for at most `patience` rounds,
-- and then count as looping; where it is not negative, they end. The inner loop of the scheduler is
-- given rounds, and a rank of the flow's nodes bounds how many it needs. The clients poll as often
-- as the source says.
--
-- What a step leaves is said by relations that do not use the code's functions: Engine/Core/Outcome
-- has the edge that is followed (Follows), the status (StatusOf) and the action (Selects),
-- Engine/Core/SharedData what stands under which key afterwards, Engine/Executor/Node/Tries and
-- Output the executions of a visit and their output, and Engine/Fanout/Results the collection of
-- branches (Collecting) and their results in order (Gathers).
--
-- Pages are counted in int, taken as 64 bits, and the offset wraps around.
--
-- Not modelled: logs and sleeping; the order in which goroutines interleave, beyond the order in
-- which their results arrive, which is a parameter; maps that contain themselves, since a value has
-- no identity; failing statements other than a missing row or a key that is taken; the decoding of
-- requests; the start-up of the programs, what the clients print, and the user interface.
--
-- Words. A task is found where the first row with its id is a given one, whatever it holds. The
-- engine may write it where the engine has no owner, or the row's lease is the engine's own and
-- outlasts every reading of the clock. A call ends where it neither panics nor runs on.
mod Prelude
pub mod Value
pub mod Runtime
pub mod Path
pub mod Expr
pub mod Flow
pub mod Error
pub mod Store
pub mod Client
pub mod Engine
pub mod Server
pub mod Worker
pub mod Scheduler
pub mod Examples
