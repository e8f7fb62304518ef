-- ===== src/Config.antt =====
-- config/config.go: what the operator sets, and how it is completed and checked after parsing. The
-- time and display settings, which no modelled code reads, are left out; `uint` is a number.
pub mod Types
pub mod Init
pub use Types.*
