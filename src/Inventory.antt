-- ===== src/Inventory.antt =====
-- src/inventory.rs: the lines of a tracked file.
pub mod Lines
pub mod Layout
pub mod Counts
