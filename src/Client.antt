-- ===== src/Client.antt =====
-- The client: src/zb/ZBClient.ts, with src/lib/deployWorkflow and src/lib/utils.ts.
pub mod Retry
pub mod Attempts
pub mod Termination
pub mod Commands
pub mod Defaults
pub mod Status
pub mod Transitions
pub mod Lifecycle
pub mod Shutdown
pub mod Requests
pub mod Modify
pub mod Deploy
pub mod Deployments
pub mod Connections
pub mod Tenants
pub mod Results
pub mod Parsed
mod Tests
