-- ===== src/Operator/Experiment/Components.antt =====
-- The objects of an experiment: `createExperimentComponentIfRequired`, `createFsNodeResource` and the
-- loops over them in `createOrUpdateExperiment` of
-- yass-operator/internal/controller/experiment/experiment_controller.go.
pub mod Readiness
use Prim.Native.String.{◌++◌ as append}
use yass_simulator.Base.{
  ℕ, String, Bool, true, false, Option, none, some, List, [], ◌∷◌, ◌++◌, ◌==◌, string_eq,
  if◌then◌else◌, contains,
}
use yass_simulator.Base.Result.{Result, ok, err}
use yass_simulator.Operator.Phase.{phase_unset}
use yass_simulator.Operator.Experiment.{ApiError, missing, other, Object, fs_node, plain, Recon}
use yass_simulator.Operator.Experiment.Conditions.{update_status_condition}
use yass_simulator.Operator.Experiment.Cluster.{Cluster}

-- A row of componentDefinitions: the template, the component, and the type of its condition, which is
-- kebabToCamel of the component.
pub record Component : Type 0 where
  pub f_name : String
  pub comp_name : String
  pub condition_type : String

component : String → String → String → Component
component file name type = record { f_name = file; comp_name = name; condition_type = type }

unfoldable pub component_definitions : List Component
unfolding component
component_definitions =
    component "messaging-statefulSet.yaml" "messaging" "Messaging"
    ∷ component "messaging-service.yaml" "messaging" "Messaging"
    ∷ component "fsnode-broadcast-service.yaml" "fsnode-broadcast" "FsnodeBroadcast"
    ∷ component "experiment-executor-statefulSet.yaml" "experiment-executor" "ExperimentExecutor"
    ∷ component "experiment-executor-service.yaml" "experiment-executor" "ExperimentExecutor"
    ∷ component "events-webapp-deployment.yaml" "events-webapp" "EventsWebapp"
    ∷ component "events-webapp-service.yaml" "events-webapp" "EventsWebapp"
    ∷ component "metrics-bridge-deployment.yaml" "metrics-bridge" "MetricsBridge"
    ∷ component "mqtt2prom-deployment.yaml" "mqtt2prom" "Mqtt2prom"
    ∷ component "mqtt2prom-service.yaml" "mqtt2prom" "Mqtt2prom"
    ∷ component "web-ui-deployment.yaml" "web-ui" "WebUi"
    ∷ component "web-ui-service.yaml" "web-ui" "WebUi"
    ∷ component "web-ui-ingress.yaml" "web-ui" "WebUi"
    ∷ []

-- The deferred update of the condition, with the object or the error of the call.
unfoldable pub concluded : Result ApiError Object → Component → Recon → Option ApiError × Recon
concluded (ok obj) c r = (none, update_status_condition c.comp_name c.condition_type obj none r)
concluded (err e) c r =
    (some e, update_status_condition c.comp_name c.condition_type plain (some e) r)

-- Creates the object where it is not found.
unfoldable pub found_or_created :
    Result ApiError Object → Result ApiError Object → Result ApiError Object
found_or_created (ok obj) new = ok obj
found_or_created (err missing) new = new
found_or_created (err (other text)) new = err (other text)

unfoldable pub appended : Option ApiError → List ApiError → List ApiError
appended none errors = errors
appended (some e) errors = errors ++ e ∷ []

module _ (k : Cluster) where
  unfoldable pub create_experiment_component_if_required :
      Component → Recon → Option ApiError × Recon
  unfolding concluded found_or_created
  create_experiment_component_if_required c r =
      concluded (found_or_created (k.get_component c.f_name) (k.create_component c.f_name)) c r

  -- The loop over the components; the errors are joined.
  unfoldable pub create_components : List Component → List ApiError → Recon → List ApiError × Recon
  unfolding appended
  create_components [] errors r = (errors, r)
  create_components (c ∷ cs) errors r =
      let (e, r') = create_experiment_component_if_required c r in
      create_components cs (appended e errors) r'

  create_new_node : String → Option ApiError → Result ApiError Object
  create_new_node name none = ok (fs_node false phase_unset)
  create_new_node name (some e) = err e

  create_behaving_node : String → Bool → Result ApiError Object
  unfolding create_new_node
  create_behaving_node name true = create_new_node name (k.create_node name)
  create_behaving_node name false =
      err (other (append "cannot find fsNode item in experimentDefinition for " name))

  -- `behaviours` are the names of the definition's behaviours.
  unfoldable pub create_fs_node_resource : List String → String → Result ApiError Object
  unfolding found_or_created create_behaving_node
  create_fs_node_resource behaviours name =
      found_or_created (k.node name) (create_behaving_node name (contains behaviours name))

  abbrev pub node_component : String → Component
  node_component name = record {
    f_name = "";
    comp_name = append "fsNode-" name;
    condition_type = append "fsNode-" name;
  }

  -- The loop over the nodes of the layout.
  unfoldable pub create_nodes :
      List String → List String → List ApiError → Recon → List ApiError × Recon
  unfolding concluded appended
  create_nodes behaviours [] errors r = (errors, r)
  create_nodes behaviours (name ∷ names) errors r =
      let (e, r') = concluded (create_fs_node_resource behaviours name) (node_component name) r in
      create_nodes behaviours names (appended e errors) r'
