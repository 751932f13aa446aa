-- ===== src/Config.antt =====
-- The client's configuration from options and environment (src/lib/ConfigurationHydrator.ts).
pub mod Settings
pub mod Address
pub mod Sources
pub mod Hydrator
pub mod Gateway
pub mod Transport
pub mod Failure
pub mod Tests
