-- ===== src/Tests.antt =====
-- Runs of the model on small inputs, and the theorems applied to them.
pub mod Values
pub mod Ranges
pub mod Decoding
pub mod Cursors
pub mod Handling
pub mod Configs
pub mod Running
pub mod Presenting
pub mod Searching
pub mod Storing
pub mod Stamping
pub mod Alerting
