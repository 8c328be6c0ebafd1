-- ===== src/Retention.antt =====
-- src/report/write/storage.rs: which runs of reports are kept.
pub mod Enforce
pub mod Kept
pub mod Newest
