-- ===== src/Advisor.antt =====
-- The advisor's resource safety: src/advice/release_gate.rs and src/advice/resources.rs.
pub mod Gate
pub mod Capacity
pub mod Monitor
pub mod Safety
pub mod Enforcement
