-- ===== src/Operator/Experiment.antt =====
-- The experiment controller: `Reconciler` of
-- yass-operator/internal/controller/experiment/experiment_controller.go, on the states of
-- yass-operator/api/v1/experiment_types.go. One call of Reconcile is a function of the experiment and
-- of the answers that the cluster gives to its requests.
pub mod Conditions
pub mod Cluster
pub mod Components
pub mod Run
pub mod Eviction
pub mod Reconcile
pub mod Deletion
use yass_simulator.Base.{
  ℕ, String, ◌≡◌, ◌↔◌, Bool, true, false, Option, none, some, List, Comparable, ◌==◌, string_eq,
  arith,
}
use yass_simulator.Base.Int.{ℤ}
use yass_simulator.Base.Map.{Map, lookup}
use yass_simulator.Base.Result.{Result}
use yass_simulator.Operator.Phase.{FsNodePhase}

-- `unset` is the empty text of an experiment that was never reconciled.
pub data ExperimentState : Type 0 where
  unset init ready insufficient_resources errored ongoing timed_out success failure :
      ExperimentState

abbrev pub state_beq : ExperimentState → ExperimentState → Bool
state_beq unset unset = true
state_beq init init = true
state_beq ready ready = true
state_beq insufficient_resources insufficient_resources = true
state_beq errored errored = true
state_beq ongoing ongoing = true
state_beq timed_out timed_out = true
state_beq success success = true
state_beq failure failure = true
state_beq _ _ = false

pub state_beq_iff : (a b : ExperimentState) → (state_beq a b ≡ true) ↔ (a ≡ b)
state_beq_iff a b = ground arith

instance abbrev pub state_eq : Comparable ExperimentState
state_eq = record { test = state_beq; test_iff = state_beq_iff }

pub data ConditionStatus : Type 0 where
  condition_true condition_false condition_unknown : ConditionStatus

-- The reasons that this controller writes.
pub data Reason : Type 0 where
  undefined object_not_found error_found ok_found not_ready too_few_replicas : Reason

-- metav1.Condition, without the instant of the last change.
pub record Condition : Type 0 where
  pub type : String
  pub status : ConditionStatus
  pub reason : Reason
  pub message : String

-- The answer to a request: an object that is not found, or another error with its text.
pub data ApiError : Type 0 where
  missing : ApiError
  other : String → ApiError

-- The kinds of objects whose readiness the controller judges: two with their available replicas, a
-- node with its `Ready` and its phase, and any other.
pub data Object : Type 0 where
  stateful_set deployment : ℤ → Object
  fs_node : Bool → FsNodePhase → Object
  plain : Object

pub record Experiment : Type 0 where
  pub name : String
  pub namespace : String
  pub start : Bool
  pub experiment_def_ref : String
  pub layout_def_ref : String
  -- EvictResourcesAfter, a duration that may be missing
  pub evict_resources_after : Option ℤ
  pub annotations : Map String String
  pub state : ExperimentState
  pub api_server_url : String
  pub conditions : List Condition

pub data Event : Type 0 where
  transition : ExperimentState → ExperimentState → Event
  layout_too_large insufficient component_failed component_restarted : Event
  experiment_not_started experiment_started start_pending start_signal_error start_signal_sent :
      Event
  eviction_scheduled resources_evicted : Event

-- The variables of Reconcile: the experiment in memory, whether its status is to be written, and the
-- events so far. Beside them the annotations of the experiment that the API server holds.
pub record Recon : Type 0 where
  pub experiment : Experiment
  pub stored_annotations : Map String String
  pub status_updated : Bool
  pub events : List Event

-- The experiment with the annotations that are stored.
abbrev pub stored : Recon → Experiment
stored r = record (r.experiment) { annotations = r.stored_annotations }

abbrev pub resources_evicted_annotation : String
resources_evicted_annotation = "experiment-controller/resources-evicted"

-- An annotation, where a missing one reads as empty.
abbrev pub text_or_empty : Option String → String
text_or_empty none = ""
text_or_empty (some text) = text

unfoldable pub annotation : String → Experiment → String
annotation key e = text_or_empty (lookup key e.annotations)

unfoldable pub is_evicted : Experiment → Bool
unfolding annotation
is_evicted e = annotation resources_evicted_annotation e == "true"
