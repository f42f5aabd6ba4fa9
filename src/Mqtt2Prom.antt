-- ===== src/Mqtt2Prom.antt =====
-- The exporter to Prometheus (internal-components/mqtt2prom).
pub mod Labels
pub mod Histogram
pub mod Collector
