-- ===== src/WorldController/HwEvents.antt =====
-- The injector of hardware faults: `Manager` of
-- internal-components/world-controller/internal/hwevents/hwevents.go. The scheduler is one loop, so
-- a tick is one step. Effects on the rest of the node are appended to a list, oldest first. Their
-- errors are only logged by the code, and are left out.
pub mod Event
pub mod Manager
pub mod Tick
