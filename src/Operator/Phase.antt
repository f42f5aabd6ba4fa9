-- ===== src/Operator/Phase.antt =====
-- `FsNodePhase` of yass-operator/api/v1/fs_node_types.go.
use yass_simulator.Base.{Bool, true, false}

pub data FsNodePhase : Type 0 where
  phase_unset pending creating running mission_completed mission_fail phase_errored : FsNodePhase

abbrev pub is_terminal : FsNodePhase → Bool
is_terminal mission_completed = true
is_terminal mission_fail = true
is_terminal phase_errored = true
is_terminal _ = false
