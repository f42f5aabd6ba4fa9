-- ===== src/Operator/Experiment/Conditions.antt =====
-- The conditions of an experiment: `updateStatusConditionForExperimentObject` and
-- `updateExperimentState` of
-- yass-operator/internal/controller/experiment/experiment_controller.go.
pub mod Latest
use yass_simulator.Base.{
  ℕ, String, Bool, true, false, ◌&&◌, ◌||◌, not, Option, none, some, List, [], ◌∷◌, ◌++◌, ◌==◌,
  string_eq, if◌then◌else◌,
}
use yass_simulator.Base.Int.{ℤ, pos, ltb_ℤ}
use yass_simulator.Operator.Phase.{FsNodePhase, is_terminal}
use yass_simulator.Operator.Experiment.{
  ExperimentState, state_eq, ConditionStatus, condition_true, condition_false, condition_unknown,
  Reason, undefined, object_not_found, error_found, ok_found, not_ready, too_few_replicas,
  Condition, ApiError, missing, other, Object, stateful_set, deployment, fs_node, plain, Experiment,
  Event, transition, Recon,
}

unfoldable pub add_event : Event → Recon → Recon
add_event e r = record r { events = r.events ++ e ∷ [] }

unfoldable pub set_state : ExperimentState → Recon → Recon
set_state s r = record r { experiment = record (r.experiment) { state = s }; status_updated = true }

unfoldable pub update_experiment_state : ExperimentState → Recon → Recon
unfolding add_event set_state
update_experiment_state s r =
    if r.experiment.state == s
    then r
    else set_state s (add_event (transition r.experiment.state s) r)

-- The new status, reason and message of a condition.
pub record Verdict : Type 0 where
  pub status : ConditionStatus
  pub reason : Reason
  pub message : String

-- The verdict on an object, with the reason where it is not ready.
judged : Bool → Reason → Verdict
judged true reason = record { status = condition_true; reason = ok_found; message = "" }
judged false reason = record { status = condition_false; reason = reason; message = "" }

by_replicas : ℤ → Verdict
unfolding judged
by_replicas n = judged (ltb_ℤ (pos 0) n) too_few_replicas

unfoldable pub verdict_of_object : Object → Verdict
unfolding judged by_replicas
verdict_of_object (stateful_set n) = by_replicas n
verdict_of_object (deployment n) = by_replicas n
verdict_of_object (fs_node is_ready phase) = judged (is_ready || is_terminal phase) not_ready
verdict_of_object plain = judged true not_ready

unfoldable pub verdict : Object → Option ApiError → Verdict
unfolding verdict_of_object
verdict obj none = verdict_of_object obj
verdict obj (some missing) = record {
  status = condition_false;
  reason = object_not_found;
  message = "";
}
verdict obj (some (other text)) = record {
  status = condition_false;
  reason = error_found;
  message = text;
}

abbrev pub status_beq : ConditionStatus → ConditionStatus → Bool
status_beq condition_true condition_true = true
status_beq condition_false condition_false = true
status_beq condition_unknown condition_unknown = true
status_beq _ _ = false

-- Whether the text of the reason is the same.
abbrev pub reason_beq : Reason → Reason → Bool
reason_beq undefined undefined = true
reason_beq object_not_found object_not_found = true
reason_beq error_found error_found = true
reason_beq ok_found ok_found = true
reason_beq not_ready not_ready = true
reason_beq too_few_replicas too_few_replicas = true
reason_beq _ _ = false

-- condition.Status != newStatus || condition.Reason != newReason || condition.Message != newMessage
differs : Verdict → Condition → Bool
differs v c =
    not (status_beq c.status v.status)
    || (not (reason_beq c.reason v.reason) || not (c.message == v.message))

with_verdict : Verdict → Condition → Condition
with_verdict v c = record c { status = v.status; reason = v.reason; message = v.message }

-- The conditions with the first of the type with_verdict, or a new one behind them, and whether any
-- of this is a change.
unfoldable pub set_condition : String → Verdict → List Condition → Bool × List Condition
unfolding differs with_verdict
set_condition type v [] =
    (true, record { type = type; status = v.status; reason = v.reason; message = v.message } ∷ [])
set_condition type v (c ∷ cs) =
    let (changed, rest) = set_condition type v cs in
    if c.type == type then (differs v c, with_verdict v c ∷ cs) else (changed, c ∷ rest)

unfoldable pub update_status_condition : String → String → Object → Option ApiError → Recon → Recon
update_status_condition comp type obj extra r =
    if comp == ""
    then r
    else (let (changed, cs) = set_condition type (verdict obj extra) r.experiment.conditions in
        record r {
          experiment = record (r.experiment) { conditions = cs };
          status_updated = r.status_updated || changed;
        })
