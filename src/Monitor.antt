-- ===== src/Monitor.antt =====
-- monitor/*.go: what watches the two contracts of a bridge.
pub mod Types
pub mod Decoders
pub mod Handlers
pub mod Alerts
pub mod ContractMonitor
pub mod Registration
