-- ===== src/Signature.antt =====
-- The decoding of the arguments that create a worker: src/lib/ZBWorkerSignature.ts, and the options
-- that `createBatchWorker` of src/zb/ZBClient.ts makes of them.
pub mod Values
pub mod Clean
pub mod Decode
pub mod Fields
pub mod Options
mod Tests
