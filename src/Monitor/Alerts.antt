-- ===== src/Monitor/Alerts.antt =====
-- monitor/alerts: what the monitor warns of. The queries of db_alerts_provider.go are computed on
-- the tables by the documented meaning of their clauses; the jobs of alert_manager.go run them.
-- Intervals, timeouts and the gauges of Prometheus are left out.
pub mod Tables
pub mod Unknown
pub mod Failed
pub mod Stuck
pub mod Requests
pub mod StuckTransfers
pub mod Activity
pub mod Manager
