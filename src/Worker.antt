-- ===== src/Worker.antt =====
-- The job workers: src/lib/ZBWorkerBase.ts and src/zb/ZBWorker.ts.
pub mod State
pub mod Polling
pub mod Closing
pub mod Actions
pub mod Jobs
pub mod Capacity
pub mod Tasks
pub mod Flow
pub mod Draining
pub mod Announced
pub mod Accounting
pub mod Backoff
pub mod Responses
pub mod Tests
