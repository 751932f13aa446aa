-- ===== src/Logging.antt =====
-- The two loggers: src/lib/ZBLogger.ts and src/lib/SimpleLogger.ts.
pub mod Logger
pub mod Threshold
pub mod Simple
pub mod Lines
mod Tests
