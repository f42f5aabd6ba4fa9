-- ===== src/Operator/Experiment/Components/Readiness.antt =====
-- Which object decides the condition of a component
-- (yass-operator/internal/controller/experiment/experiment_controller.go).
use yass_simulator.Base.{
  String, ◌≡◌, refl, ap, ◌∙◌, false, Option, none, some, List, [], ◌∷◌, arith, ◌==◌, string_eq,
  string_beq_iff, if◌then◌else◌, All,
}
use yass_simulator.Base.Result.{Result, ok, err}
use yass_simulator.Operator.Experiment.{ApiError, Object, plain, Recon}
use yass_simulator.Operator.Experiment.Conditions.{Verdict, verdict}
use yass_simulator.Operator.Experiment.Conditions.Latest.{
  condition_of, condition_of-update_status_condition,
}
use yass_simulator.Operator.Experiment.Cluster.{Cluster}
use yass_simulator.Operator.Experiment.Components.{
  Component, component_definitions, concluded, found_or_created,
  create_experiment_component_if_required, create_components,
}

-- The verdict on an object, or on the error in its place.
unfoldable pub verdict_of_result : Result ApiError Object → Verdict
verdict_of_result (ok obj) = verdict obj none
verdict_of_result (err e) = verdict plain (some e)

-- The verdict on a component: on the object that is found or created, or on the error.
unfoldable pub verdict_of_component : Cluster → String → Verdict
unfolding verdict_of_result found_or_created
verdict_of_component k file =
    verdict_of_result (found_or_created (k.get_component file) (k.create_component file))

-- The verdict on the last of the components whose condition is asked for.
latest : Cluster → List Component → String → Option Verdict → Option Verdict
latest k [] asked v = v
latest k (c ∷ cs) asked v =
    latest k cs asked
      (if c.condition_type == asked then some (verdict_of_component k c.f_name) else v)

abbrev IsNamed : Component → Type 0
IsNamed c = (c.comp_name == "") ≡ false

condition_of-concluded :
    (found : Result ApiError Object) (c : Component) (asked : String) (r : Recon)
    → IsNamed c
    → condition_of asked (concluded found c r).1.experiment.conditions ≡ (
        if c.condition_type == asked
        then some (verdict_of_result found)
        else condition_of asked r.experiment.conditions)
unfolding concluded verdict_of_result
condition_of-concluded (ok obj) c asked r named =
    condition_of-update_status_condition c.comp_name c.condition_type asked obj none r
      (λ e. ground (arith, named, string_beq_iff c.comp_name "", e))
condition_of-concluded (err e) c asked r named =
    condition_of-update_status_condition c.comp_name c.condition_type asked plain (some e) r
      (λ eq. ground (arith, named, string_beq_iff c.comp_name "", eq))

condition_of-create_components :
    (k : Cluster) (cs : List Component) (errors : List ApiError) (asked : String) (r : Recon)
    → All IsNamed cs
    → condition_of asked (create_components k cs errors r).1.experiment.conditions
      ≡ latest k cs asked (condition_of asked r.experiment.conditions)
unfolding create_components latest create_experiment_component_if_required verdict_of_component
condition_of-create_components k [] errors asked r named = refl
condition_of-create_components k (c ∷ cs) errors asked r named =
    condition_of-create_components k cs _ asked _ named.1
    ∙ ap (latest k cs asked) (
        condition_of-concluded
          (found_or_created (k.get_component c.f_name) (k.create_component c.f_name)) c asked r
          named.0)

All-component_definitions : All IsNamed component_definitions
unfolding component_definitions
All-component_definitions = (
  refl,
  (
    refl,
    (refl, (refl, (refl, (refl, (refl, (refl, (refl, (refl, (refl, (refl, (refl, tt))))))))))),
  ),
)

-- A component that has a service is judged by the service alone (the web UI by its ingress), since the
-- service comes behind the stateful set or the deployment and has the same condition: whether a
-- replica of the broker, of the executor, of the web applications or of the exporter is available
-- shows in no condition.
pub create_components-component_definitions :
    (k : Cluster) (r : Recon)
    → let cs = (create_components k component_definitions [] r).1.experiment.conditions in
      (condition_of "Messaging" cs ≡ some (verdict_of_component k "messaging-service.yaml"))
      × (condition_of "ExperimentExecutor" cs
          ≡ some (verdict_of_component k "experiment-executor-service.yaml"))
      × (condition_of "EventsWebapp" cs
          ≡ some (verdict_of_component k "events-webapp-service.yaml"))
      × (condition_of "Mqtt2prom" cs ≡ some (verdict_of_component k "mqtt2prom-service.yaml"))
      × (condition_of "WebUi" cs ≡ some (verdict_of_component k "web-ui-ingress.yaml"))
unfolding component_definitions latest
create_components-component_definitions k r =
    let all = λ (asked : String).
      condition_of-create_components k component_definitions [] asked r All-component_definitions in
    (all "Messaging", all "ExperimentExecutor", all "EventsWebapp", all "Mqtt2prom", all "WebUi")
