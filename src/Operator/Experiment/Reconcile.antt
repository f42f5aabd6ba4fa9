-- ===== src/Operator/Experiment/Reconcile.antt =====
-- One call of Reconcile: `createOrUpdateExperiment` and `Reconcile` of
-- yass-operator/internal/controller/experiment/experiment_controller.go, for an experiment that is
-- not being deleted, in a namespace that is not, behind the update of its finalizer.
pub mod Kept
pub mod Path
use Prim.Native.String.{◌++◌ as append}
use yass_simulator.Base.{
  ℕ, String, Bool, true, false, ◌&&◌, ◌||◌, not, Option, none, some, List, [], ◌∷◌, ltb, ◌==◌,
  string_eq, if◌then◌else◌, length,
}
use yass_simulator.Base.Int.{ℤ, pos, ltb_ℤ}
use yass_simulator.Base.Result.{Result, ok, err}
use yass_simulator.Operator.Experiment.{
  ExperimentState, unset, init, ready, insufficient_resources, errored, state_eq, ApiError, other,
  plain, Experiment, layout_too_large, Recon, is_evicted,
}
use yass_simulator.Operator.Experiment.Conditions.{
  add_event, update_experiment_state, update_status_condition,
}
use yass_simulator.Operator.Experiment.Cluster.{Cluster, Library}
use yass_simulator.Operator.Experiment.Components.{
  component_definitions, create_components, create_nodes,
}
use yass_simulator.Operator.Experiment.Run.{
  Failure, and_then, components_failed, advance, evaluate_experiment_outcome,
}
use yass_simulator.Operator.Experiment.Eviction.{seconds, Answer, answered, maybe_evict_resources}

abbrev pub max_fs_nodes : ℕ
max_fs_nodes = 1024

-- The object that a reference names, for a reference that may be empty.
referred :
    String → String → (String → Result ApiError (List String)) → Result ApiError (List String)
referred text ref get = if ref == "" then err (other text) else get ref

-- What is read of an object that was not found.
unfoldable pub names_or_none : Result ApiError (List String) → List String
names_or_none (ok names) = names
names_or_none (err e) = []

unfoldable pub error_of : Result ApiError (List String) → Option ApiError
error_of (ok names) = none
error_of (err e) = some e

-- AsError of the errors joined.
unfoldable pub joined_error : List ApiError → Option Failure
joined_error [] = none
joined_error (e ∷ es) = some components_failed

-- The message of a layout with n nodes.
size_message : Library → String → ℕ → String
size_message lib layout n = append "layout " (
    append layout (
      append " references " (
        append (lib.itoa (pos n)) (
          append " FsNodes; maximum supported is " (
            append (lib.itoa (pos max_fs_nodes))
              " (geo-calculator MAXSAT). Reduce the layout to start the experiment.")))))

unfoldable pub reject_layout : String → Recon → Recon
reject_layout message r =
    let r' = update_status_condition "layout-size" "LayoutSize" plain (some (other message)) r in
    if r'.experiment.state == errored
    then r'
    else add_event layout_too_large (update_experiment_state errored r')

unfoldable pub initialised : Recon → Recon
initialised r = if r.experiment.state == unset then update_experiment_state init r else r

-- /apis/<group and version>/namespaces/<namespace>/experiments/<name>
url_of : Experiment → String
url_of e =
    append "/apis/runtime.esa.yass/v1/namespaces/"
      (append e.namespace (append "/experiments/" e.name))

unfoldable pub addressed : Recon → Recon
unfolding url_of
addressed r = if r.experiment.api_server_url == url_of r.experiment then r else record r {
  experiment = record (r.experiment) { api_server_url = url_of r.experiment };
  status_updated = true;
}

-- Where the eviction fails, the next call comes in 10 seconds.
unfoldable pub retried : Answer → Answer
retried a = elim a.error [ none ↦ a | some e ↦ record a { requeue_after = seconds 10 } ]

module _ (k : Cluster) (lib : Library) where
  unfoldable pub definition_of : Experiment → Result ApiError (List String)
  unfolding referred
  definition_of e = referred "experimentDefRef is empty" e.experiment_def_ref k.definition

  unfoldable pub layout_of : Experiment → Result ApiError (List String)
  unfolding referred
  layout_of e = referred "layoutDefRef is empty" e.layout_def_ref k.layout

  -- The conditions of the definition and of the layout.
  unfoldable pub check_references : Recon → Recon
  check_references r =
      let r' =
        update_status_condition "experiment-definition" "ExperimentDefinition" plain
          (error_of (definition_of r.experiment)) r in
      update_status_condition "layout" "Layout" plain (error_of (layout_of r.experiment)) r'

  -- Behind the loop over the nodes.
  unfoldable pub with_nodes : List ApiError × Recon → Option Failure × Recon
  with_nodes (errors, r) = elim (joined_error errors) [
    | some e ↦ (some e, r)
    | none ↦ advance k lib r
  ]

  -- Behind the loop over the components.
  unfoldable pub with_components :
      List String → List String → List ApiError × Recon → Option Failure × Recon
  with_components behaviours nodes (errors, r) = elim (joined_error errors) [
    | some e ↦ (some e, r)
    | none ↦ with_nodes (create_nodes k behaviours nodes [] r)
  ]

  unfoldable pub create_or_update_experiment : Recon → Option Failure × Recon
  unfolding size_message
  create_or_update_experiment r =
      let nodes = names_or_none (layout_of r.experiment) in
      let r' = check_references r in
      if ltb max_fs_nodes (length nodes)
      then (none, reject_layout (size_message lib r.experiment.layout_def_ref (length nodes)) r')
      else with_components (names_or_none (definition_of r.experiment)) nodes
          (create_components k component_definitions [] r')

  -- Reconcile behind the outcome.
  unfoldable pub requeued : ℤ → Option Failure × Recon → Answer
  unfolding answered retried
  requeued now (some e, r) = answered (seconds 10) (some e, r)
  requeued now (none, r) =
      if r.experiment.state == init || r.experiment.state == insufficient_resources
      then answered (seconds 5) (none, r)
      else if r.experiment.state == ready && r.experiment.start
      then answered (seconds 5) (none, r)
      else retried (maybe_evict_resources k lib now r)

  unfoldable pub reconcile : ℤ → Recon → Answer
  unfolding answered
  reconcile now r =
      let r' = addressed (initialised r) in
      if is_evicted r'.experiment
      then answered (pos 0) (none, r')
      else requeued now (and_then (create_or_update_experiment r') (evaluate_experiment_outcome k))
