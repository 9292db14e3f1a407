-- ===== src/Lib.antt =====
-- A model of the core of Capillaries, a distributed data processing framework, and what holds of it.
--
-- A run processes a script, a graph of nodes, each split into batches. StartRun (pkg/api) takes a
-- run id from the counter of the keyspace (pkg/wfdb), finds the nodes to run (pkg/sc), marks the run
-- started and sends a message for each batch, which a producer may sign and a daemon then verifies
-- (pkg/msgsig). The message of a batch waits in the queue of the broker (pkg/capimq); a worker claims it and hands it to the handler
-- (pkg/api), which asks the state database (pkg/wfdb) for the histories of the run, of the node and
-- of the batch, derives statuses from their rows (pkg/wfmodel), checks with the dependency policy
-- (pkg/dpc) whether the nodes read from are ready, calls the processor (pkg/proc) and writes the
-- statuses. The worker then acknowledges the message or returns it to the queue. Statements for the
-- database are texts that a query builder makes (pkg/cql); processors evaluate expressions with
-- aggregate functions (pkg/eval).
--
-- The files and the code they model:
--   Prelude: shared tests, lists, int64 arithmetic, byte strings, sorting, maps, results with an
--     error, TrimSpace and ToLower, decimal texts.
--   Broker: pkg/capimq/message_broker.go. Message has the data, Ops the operations that move
--     messages (ReturnDead, QBulk, Claim, Ack, Heartbeat, Return), Views the rest (Count, Delete as
--     `purge`, HeadTail, Filter); Run has histories of calls,
--     Delivery the order of the queue after them. The state is the queue, a list whose
--     head is claimed first, and the map of claimed messages, an association list by id.
--   Wfmodel: pkg/wfmodel. Row has util.go, BatchHistory, NodeHistory, RunHistory and RunProperties
--     the files of these names: rows are decoded field by field, with the errors of the decoders.
--   Dpc: pkg/dpc/dependency_policy_checker.go (Policy), pkg/sc/dependency_policy_def.go (Policy,
--     Default), the int and bool keys of pkg/sc/key.go (Key; Digits, IntKeys and KeyOrder have their order,
--     FirstMatch the status that decides) and the part of pkg/eval/eval_ctx.go
--     that rules use, over int64 and bool (Expr).
--   Api: pkg/api/message_handler.go and pkg/wfdb/dependency_node_event.go. World has the
--     environment, Refresh updateNodeStatusFromBatches and its companions, Dependencies
--     checkDependencyNodesReady, Checks the checks before a batch, Process ProcessDataBatchMsg,
--     whose steps are a function each. Calls, Quiet, Ordering, Guards and Progress have
--     what the traces of calls satisfy.
--     StartRun has StartRun and StopRun of pkg/api/run.go, RunOrder, RunSends, RunComplete and
--     RunMessages what holds of their calls and messages.
--   Sc: GetTokenIntervalsByNumberOfBatches of pkg/sc/script_node_def.go (Batches), whose intervals
--     share the int64 tokens out (Tiling), for 1 up to MaxAcceptedBatchesByTableReader batches;
--     GetAffectedNodes of pkg/sc/script_def.go (Affected), with its recursion (Visits, Reach,
--     Manual, ManualSet), its loops (Starts) and the whole (Start). Access has CheckUrl of
--     pkg/sc/fetch_policy.go and checkRemoteUrlAllowed of pkg/sc/path_allowlist.go, Paths the
--     rest of that file; Containment, Fetching and Allowed have what they let through.
--   Wfdb: pkg/wfdb/run_counter.go. RunCounter has GetNextRunCounter as a machine that waits for one
--     answer at a time, Callers the concurrent callers of a keyspace as a step relation, Rounds the
--     number of its rounds, Counter and Refinement the counter that the callers implement, Unique
--     the ids that they are given.
--   Mq: pkg/exe/mq/capimq.go and pkg/mq/capimq_async_consumer.go. Routes has the table of routes and
--     how ServeHTTP picks one, Moves and Server the handlers, Client the calls of the consumer over
--     a connection that may lose a request or a response, Exchange what the two do together.
--     Consumer has the workers of the consumer with the loop of pkg/exe/daemon/capidaemon.go, as a
--     step relation on what they share, Counting and Drain what holds of them.
--   Msgsig: pkg/msgsig. Envelope has envelope.go and the interface of the codecs, Ops signer.go and
--     verifier.go (Open as `open_message`), Ring, Roundtrip and Safety what holds of them.
--   Cql: pkg/cql/cql_query_builder.go. Value, Prepared, Builder and Statements have the code,
--     Quoting, Tables, Calls and Params what holds of literals, table names and parameters.
--   Eval: pkg/eval/cast.go (Cast) and pkg/eval/agg.go (Agg, Collect, Calls), over the values of
--     Numbers; Bounds and Average are about averages, Types and OneType about the types of values.
--   Examples: runs at concrete inputs.
--
-- Integers are ℤ with the wrap-around of int64 and int16 written out where the code computes.
-- Times of the broker are int64 milliseconds; the others are instants in nanoseconds. Strings are
-- lists of bytes where the code compares them, names of columns are string literals. The clock is
-- an argument or a call of the environment. Go's sort may leave equal elements in any order; the
-- model's keeps theirs, and no statement about order depends on ties.
--
-- The environment of the handler is a record of functions of the calls made so far, about which
-- nothing is assumed: database, script loader, cache, clock and processor may answer anything and
-- fail at any call. An error has only what the handler tells apart in it.
--
-- Loops are by recursion on lists. The loop of Delete runs on fuel, the length of the queue, which
-- is enough: each round moves the index on by one, and the queue never grows. GetAffectedNodes runs
-- on fuel, the depth of the recursion, which is enough for a script without cycles when it exceeds
-- a rank of its nodes. Decimal texts have at most twenty digits, more than an int64 has.
--
-- Third-party code and what computes with it are parameters: the codecs and signatures of Msgsig
-- with the laws that their documentation gives (CodecsLaws), floating point numbers and decimals
-- of Eval without laws, JSON of Mq with a law where a theorem needs one.
--
-- Not modelled: logging, metrics and comments of statuses, which nothing reads back; the locks of
-- the broker, whose calls are taken to take effect one after the other; the AMQP clients, file
-- formats and the processors, which are parameters; the parsers of scripts and expressions, which
-- rest on third-party code; the walk of expressions beyond what dependency rules use; the start
-- and shutdown of the executables, and those besides the queue server and the daemon.
pub mod Prelude
pub mod Broker
pub mod Wfmodel
pub mod Dpc
pub mod Api
pub mod Sc
pub mod Wfdb
pub mod Mq
pub mod Msgsig
pub mod Cql
pub mod Eval
pub mod Examples
