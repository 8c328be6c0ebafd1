-- ===== src/Context.antt =====
-- src/advice/context/: the evidence that is handed to the model.
pub mod Input
pub mod Compact
pub mod Budget
pub mod Rounds
pub mod Fits
pub mod Traced
