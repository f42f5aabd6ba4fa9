-- ===== src/WorldController/Networking/Handler/Faults.antt =====
-- What is asked of the kernel under a black hole: `install` of
-- internal-components/world-controller/internal/networking/networking.go with the overlay of
-- overlay.go.
use yass_simulator.WorldController.Networking.Overlay.{Overlay}
