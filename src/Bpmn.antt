-- ===== src/Bpmn.antt =====
-- The BPMN parser's use of parsed documents: src/lib/BpmnParser.ts.
pub mod Order
pub mod Unique
pub mod Document
pub mod Scan
pub mod Readings
pub mod Occurrences
pub mod Gathering
pub mod Names
pub mod Files
pub mod Scaffold
pub mod Generate
pub mod Separators
pub mod Shapes
pub mod SafeNames
pub mod Contains
pub mod Writable
pub mod Pieces
pub mod Starter
pub mod Complete
mod Tests
