-- ===== src/Lib.antt =====
-- The Zeebe client for Node.js.
--
-- A client (src/zb/ZBClient.ts) sends commands to a Zeebe gateway over gRPC and creates job workers. Each
-- worker has a connection of its own, asks the gateway for jobs, hands them to the user's handler and
-- sends the handler's decision back through the client. The state of a component is a record; each of its
-- operations is a function from the state to the state and to what it sends, emits or answers. Code that
-- awaits is cut at its `await`s: one function for each piece that runs without interruption. Timers are
-- the times at which they fire, and a timer that fires is a step of its own. What happens in which order
-- is a list of events or, for a worker with its gateway, a step relation.
--
-- The parts, with the code that each models:
--   Base: shared names, what JavaScript does with missing and falsy values, texts, integers.
--   Variables: src/lib/stringifyVariables.ts, the jobs of src/lib/interfaces-grpc-1.0.ts.
--   Worker: src/lib/ZBWorkerBase.ts and src/zb/ZBWorker.ts. State is the record and the constructor,
--     Polling is poll, activateJobs and the listeners of a stream, Closing is drainOne and close, Actions
--     is makeCompleteHandlers with failJob, completeJob and errorJob, Jobs is handleJobResponse and the
--     catch of handleJob. Flow puts a worker together with its gateway, Tasks with its handlers: each
--     call of handleJob is a task, and a step is a call of a handler, an answer to it, an exception or
--     a move of the worker. Capacity, Draining, Accounting, Backoff, Responses, Announced,
--     Flow/Invariant, Flow/Progress, Tasks/Slots and Tasks/Held are about these.
--   Emitter: src/lib/TypedEmitter.ts, from which clients and workers inherit.
--   Batch: Queue and Batcher are src/lib/Queue.ts, src/lib/JobBatcher.ts and the test in
--     src/zb/ZBBatchWorker.ts; Responses is its handleJobs behind handleJobResponse. Delivery and InOrder
--     are about these.
--   Connection: Channel, Calls, Methods, Durations and Reconnect are src/lib/GrpcClient.ts, Middleware is
--     src/lib/GrpcMiddleware.ts (what it logs is in Calls), LogBuffer is src/lib/StatefulLogInterceptor.ts,
--     Factory is src/lib/ConnectionFactory.ts. Debounce, Gate, Flushing, Buffering, Agreement, Calls/Settling
--     and Calls/Timeouts are about these.
--   OAuth: Provider is src/lib/OAuthProvider.ts; Freshness, Sharing, Backoff and Persistence are about it.
--   Config: Settings, Address, Sources and Hydrator are src/lib/ConfigurationHydrator.ts and the options of
--     src/lib/interfaces-published-contract.ts; Gateway, Transport and Failure are about these.
--   Client: Retry, Status, Lifecycle, Requests, Commands, Results, Defaults, Connections and Modify are
--     src/zb/ZBClient.ts; Deploy is its deployments with src/lib/deployWorkflow. Connections puts the
--     configuration, the client, its workers and their gRPC clients together. Attempts, Termination,
--     Transitions, Shutdown, Deployments, Tenants, Parsed, Connections/Secured and
--     Connections/LongPoll are about these.
--   Bpmn: Document is what the XML parser gives to src/lib/BpmnParser.ts, Scan its task types and message
--     names, Names its names, Files what it reads, Scaffold and Generate the texts that it writes. Order
--     and Unique are sort and Set; Readings, Occurrences, Gathering, Separators, Shapes, SafeNames, Contains,
--     Pieces, Starter, Writable and Complete are about these.
--   Signature: Values, Clean and Decode are src/lib/ZBWorkerSignature.ts and the options of a batch
--     worker; Fields and Options are about them.
--   Logging: Logger is src/lib/ZBLogger.ts, Simple is src/lib/SimpleLogger.ts; Threshold and Lines are
--     about these.
--
-- Numbers: JavaScript numbers that are counts or milliseconds are natural numbers, those that can be
-- negative are integers. They have no bounds here; the source's numbers are exact up to 2 ^ 53. All
-- functions are total by structural recursion, so there is no fuel.
--
-- Parameters: JSON.parse and JSON.stringify, the URL and XML parsers and the XML validator, parseInt,
-- toUpperCase, the way a template writes a value, the conversion of durations, the file system, uuid, the
-- packages promise-retry and fp-ts and the EventEmitter of Node.js (interfaces with the documented laws),
-- the gateway (what it answers), the user's handlers (what they call), and the clock (the times of events).
--
-- Not modelled: the loading of the protocol file, which is grpc-js; the answers that the client passes
-- on unread; the command line and the test helpers. Objects that contain themselves, on which cleanEmpty
-- would not return, are no values of the model.
mod Base
pub mod Variables
pub mod Connection
pub mod OAuth
pub mod Batch
pub mod Config
pub mod Emitter
pub mod Worker
pub mod Client
pub mod Bpmn
pub mod Signature
pub mod Logging
