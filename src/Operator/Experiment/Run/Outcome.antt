-- ===== src/Operator/Experiment/Run/Outcome.antt =====
-- The outcome of a run from the phases of its nodes
-- (yass-operator/internal/controller/experiment/experiment_controller.go).
use yass_simulator.Base.{
  ◌≡◌, refl, Bool, true, false, ◌&&◌, ◌||◌, none, some, List, [], ◌∷◌, arith, ◌==◌, if◌then◌else◌,
}
use yass_simulator.Base.Result.{Result, ok, err}
use yass_simulator.Operator.Phase.{
  FsNodePhase, phase_unset, mission_completed, mission_fail, phase_errored, is_terminal,
}
use yass_simulator.Operator.Experiment.{
  ExperimentState, errored, ongoing, timed_out, success, failure, state_eq, state_beq_iff, ApiError,
  Recon,
}
use yass_simulator.Operator.Experiment.Conditions.{update_experiment_state, set_state, add_event}
use yass_simulator.Operator.Experiment.Cluster.{Cluster}
use yass_simulator.Operator.Experiment.Run.{
  aggregate, decided, evaluated, evaluate_experiment_outcome,
}

unfoldable pub all : (FsNodePhase → Bool) → List FsNodePhase → Bool
all p [] = true
all p (x ∷ xs) = p x && all p xs

abbrev pub is_errored : FsNodePhase → Bool
is_errored phase_errored = true
is_errored _ = false

abbrev pub is_failed : FsNodePhase → Bool
is_failed mission_fail = true
is_failed _ = false

unfoldable pub any_phase : (FsNodePhase → Bool) → List FsNodePhase → Bool
any_phase p [] = false
any_phase p (x ∷ xs) = p x || any_phase p xs

-- The outcome of nodes that have all ended.
unfoldable pub outcome_of : List FsNodePhase → ExperimentState
outcome_of phases =
    if any_phase is_errored phases
    then errored
    else if any_phase is_failed phases
    then failure
    else success

aggregate_lem :
    (phases : List FsNodePhase) (e f : Bool)
    → aggregate phases e f ≡ (
        if all is_terminal phases
        then some (e || any_phase is_errored phases, f || any_phase is_failed phases)
        else none)
unfolding aggregate all any_phase
aggregate_lem [] e f = ground arith
aggregate_lem (phase_errored ∷ phases) e f = ground (arith, aggregate_lem phases true f)
aggregate_lem (mission_fail ∷ phases) e f = ground (arith, aggregate_lem phases e true)
aggregate_lem (mission_completed ∷ phases) e f = ground (arith, aggregate_lem phases e f)
aggregate_lem (phase_unset ∷ phases) e f = ground arith
aggregate_lem (_ ∷ phases) e f = ground arith

pub state-update_experiment_state :
    (s : ExperimentState) (r : Recon) → (update_experiment_state s r).experiment.state ≡ s
unfolding update_experiment_state set_state add_event
state-update_experiment_state s r = ground (arith, state_beq_iff r.experiment.state s)

state-decided :
    (phases : List FsNodePhase) (r : Recon)
    → (decided (aggregate phases false false) r).experiment.state
      ≡ (if all is_terminal phases then outcome_of phases else r.experiment.state)
unfolding outcome_of decided
state-decided phases r = rw (aggregate_lem phases false false) (
    ground (
      arith,
      state-update_experiment_state errored r,
      state-update_experiment_state failure r,
      state-update_experiment_state success r,
    ))

-- A run with the nodes' phases, where the nodes could be listed, ends in this state.
unfoldable pub ended_in : Result ApiError (List FsNodePhase) → ExperimentState → ExperimentState
ended_in (err e) state = state
ended_in (ok []) state = state
ended_in (ok (phase ∷ phases)) state =
    if all is_terminal (phase ∷ phases) then outcome_of (phase ∷ phases) else state

state-evaluated :
    (answer : Result ApiError (List FsNodePhase)) (r : Recon)
    → (evaluated answer r).1.experiment.state ≡ ended_in answer r.experiment.state
unfolding evaluated ended_in
state-evaluated (err e) r = refl
state-evaluated (ok []) r = refl
state-evaluated (ok (phase ∷ phases)) r = state-decided (phase ∷ phases) r

-- A run that is Ongoing or TimedOut comes to an end exactly if it has nodes and all of them have
-- ended: Errored if a node is, else Failure if a node's mission failed, else Success. In every other
-- case, also where the nodes cannot be listed, its state is kept.
pub evaluate_experiment_outcome-eq-ended_in :
    (k : Cluster) (r : Recon)
    → (evaluate_experiment_outcome k r).1.experiment.state ≡ (
        if r.experiment.state == ongoing || r.experiment.state == timed_out
        then ended_in k.phases r.experiment.state
        else r.experiment.state)
unfolding evaluate_experiment_outcome
evaluate_experiment_outcome-eq-ended_in k r = ground (arith, state-evaluated k.phases r)
