-- ===== src/WorldController.antt =====
-- The world controller of a node (internal-components/world-controller).
pub mod Networking
pub mod Battery
pub mod Verdict
pub mod HwEvents
