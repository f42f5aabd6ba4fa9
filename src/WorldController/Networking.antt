-- ===== src/WorldController/Networking.antt =====
-- The traffic rules of a node (internal-components/world-controller/internal/networking).
pub mod Param
pub mod Overlay
pub mod Minors
pub mod Netlink
pub mod Profile
pub mod Handler
