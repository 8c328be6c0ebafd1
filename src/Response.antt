-- ===== src/Response.antt =====
-- src/advice/validate.rs: the model's response against the input that it was given.
pub mod Model
pub mod Checks
pub mod Validate
pub mod Citations
pub mod Grounded
pub mod Evaluated
pub mod Complete
