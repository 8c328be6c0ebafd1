-- ===== src/Policy.antt =====
-- src/policy/: policy packs, their validation and their compilation into one set of rules.
pub mod Model
pub mod Manifest
pub mod Compile
pub mod Verdicts
pub mod Conditions
pub mod Accepted
pub mod Distinct
pub mod Conflicts
pub mod Store
pub mod Lifecycle
pub mod Frame
pub mod Changes
pub mod Locked
pub mod Commands
pub mod Resolve
pub mod Advice
pub mod Requested
pub mod Restriction
