-- ===== src/Freshness.antt =====
-- src/freshness.rs: whether a report still describes the repository. What git, the configuration,
-- the digests and the clock answer are arguments.
pub mod Evaluate
pub mod Current
