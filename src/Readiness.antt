-- ===== src/Readiness.antt =====
-- src/report_ops/readiness.rs: whether a report may be enforced and compared.
pub mod Report
pub mod Evaluate
pub mod Sections
pub mod Ready
