-- ===== src/Compare.antt =====
-- src/report_ops/compare/: how two reports are compared, record by record.
pub mod Model
pub mod Delta
pub mod Regression
pub mod Coverage
pub mod Renames
pub mod Verdicts
pub mod Queue
pub mod Movement
