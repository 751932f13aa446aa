-- ===== src/Batch.antt =====
-- The batch worker: src/lib/Queue.ts, src/lib/JobBatcher.ts and src/zb/ZBBatchWorker.ts.
pub mod Queue
pub mod Batcher
pub mod Delivery
pub mod Responses
pub mod InOrder
pub mod Timeouts
mod Tests
