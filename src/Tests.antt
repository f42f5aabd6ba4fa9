-- ===== src/Tests.antt =====
-- The theorems at concrete inputs, by component.
mod Whole
pub mod Metrics
pub mod Traffic
pub mod Energy
pub mod Hardware
pub mod Experiments
pub mod Exporter
pub mod Admission
pub mod Nodes
pub mod Files
