-- ===== src/Operator/Experiment/Reconcile/Path.antt =====
-- The states that a run goes through in a call of Reconcile
-- (yass-operator/internal/controller/experiment/experiment_controller.go).
use yass_simulator.Base.{string_eq}
use yass_simulator.Base.Result.{Result}
use yass_simulator.Operator.Experiment.{state_eq}
use yass_simulator.Operator.Experiment.Cluster.{Cluster}
