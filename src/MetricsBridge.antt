-- ===== src/MetricsBridge.antt =====
-- The metrics bridge (internal-components/metrics-bridge).
pub mod Tracker
pub mod IpMap
pub mod Bridge
