-- ===== src/Examples.antt =====
-- Each theorem at a concrete input, and runs of the definitions.
mod Advisor
mod Escape
mod History
mod Compare
pub mod Policy
mod PolicyStore
mod Overlays
mod Freshness
mod Baseline
mod Artifact
mod Context
mod Response
mod Readiness
mod Retention
mod Inventory
