-- ===== src/Artifact.antt =====
-- src/advice/artifact/persistence.rs: the artifacts of the advice on disk.
pub mod Disk
pub mod Write
pub mod Calls
pub mod Staging
pub mod Atomic
pub mod Published
pub mod Safety
pub mod Writers
