-- ===== src/Connection.antt =====
-- The connection to the gateway: the channel state of src/lib/GrpcClient.ts, the start-up gate of
-- src/lib/GrpcMiddleware.ts, the log buffer of src/lib/StatefulLogInterceptor.ts and their assembly in
-- src/lib/ConnectionFactory.ts.
pub mod Channel
pub mod Middleware
pub mod LogBuffer
pub mod Factory
pub mod Agreement
pub mod Debounce
pub mod Gate
pub mod Flushing
pub mod Buffering
pub mod Calls
pub mod Durations
pub mod Reconnect
pub mod Methods
mod Tests
