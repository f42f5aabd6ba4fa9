-- ===== src/Tests/Experiments.antt =====
-- The theorems on yass-operator/internal/controller/experiment at concrete inputs.
use yass_simulator.Base.{
  ◌↔◌, ◌≡◌, ◌≢◌, refl, Bool, true, false, ◌&&◌, none, some, List, [], ◌∷◌, ◌⊎◌, arith, ◌==◌,
  string_eq, if◌then◌else◌, contains,
}
use yass_simulator.Base.Int.{pos, ◌-ℤ◌}
use yass_simulator.Base.Map.{lookup}
use yass_simulator.Base.Result.{Result, ok}
use yass_simulator.Operator.Phase.{mission_completed, mission_fail}
use yass_simulator.Operator.Experiment.{
  ExperimentState, init, ongoing, success, failure, state_eq, ApiError, missing, plain, Condition,
  Recon, stored, is_evicted, annotation,
}
use yass_simulator.Operator.Experiment.Cluster.{Cluster, Library, responded}
use yass_simulator.Operator.Experiment.Components.{component_definitions, create_components}
use yass_simulator.Operator.Experiment.Components.Readiness.{
  verdict_of_component, create_components-component_definitions,
}
use yass_simulator.Operator.Experiment.Conditions.Latest.{condition_of}
use yass_simulator.Operator.Experiment.Run.{
  has_unschedulable_pods, advance, fail_components, evaluate_experiment_outcome,
}
use yass_simulator.Operator.Experiment.Run.Outcome.{
  ended_in, outcome_of, all, any_phase, evaluate_experiment_outcome-eq-ended_in,
}
use yass_simulator.Operator.Experiment.Run.Report.{fail_components-eq-ongoing}
use yass_simulator.Operator.Experiment.Run.Start.{state-advance}
use yass_simulator.Operator.Experiment.Eviction.{
  evict_resources_at_annotation, refused, is_terminal_experiment_state, maybe_evict_resources,
}
use yass_simulator.Operator.Experiment.Eviction.Freed.{is_none, frees, frees_items, listed, is_none}
use yass_simulator.Operator.Experiment.Eviction.Deadline.{
  IsDue, IsDue-maybe_evict_resources, deleted-maybe_evict_resources,
  is_evicted-maybe_evict_resources,
}
use yass_simulator.Operator.Experiment.Eviction.Eventually.{
  again, IsFresh, maybe_evict_resources-eventually,
}
use yass_simulator.Operator.Experiment.Deletion.{
  ObjectRef, ref_eq, OwnedIn, OwnedObject, delete_experiment_objects,
  delete_experiment_objects-eq-OwnedIn,
}

-- A cluster in which all objects are found, one node has ended well and the other one has failed.
abbrev calm : Cluster
calm = record {
  definition = λ name. ok ("sat-1" ∷ "gs-1" ∷ []);
  layout = λ name. ok ("sat-1" ∷ "gs-1" ∷ []);
  get_component = λ file. ok plain;
  create_component = λ file. ok plain;
  node = λ name. ok plain;
  create_node = λ name. none;
  pods = ok [];
  all_pods = ok [];
  phases = ok (mission_completed ∷ mission_fail ∷ []);
  post = λ endpoint. responded 200;
  update_answer = none;
  workloads = ok ("sat-1" ∷ "gs-1" ∷ []) ∷ ok ("messaging" ∷ []) ∷ ok [] ∷ [];
  delete_object = λ name. if name == "gs-1" then some missing else none;
}

all_true : List Condition → (Condition → Bool) → Bool
all_true [] p = true
all_true (c ∷ cs) p = p c && all_true cs p

-- A library in which the only instant is written as "10".
abbrev library : Library
library = record {
  itoa = λ n. "0";
  atoi = λ text. some (pos 0);
  format_time = λ t. "10";
  parse_time = λ text. if text == "10" then some (pos 10) else none;
  all_match = all_true;
}

abbrev in_state : ExperimentState → Recon
in_state s = record {
  experiment = record {
    name = "demo";
    namespace = "demo";
    start = true;
    experiment_def_ref = "scenario";
    layout_def_ref = "world";
    evict_resources_after = some (pos 5);
    annotations = [];
    state = s;
    api_server_url = "";
    conditions = [];
  };
  stored_annotations = [];
  status_updated = false;
  events = [];
}

abbrev stamped_success : Recon
stamped_success = record (in_state success) {
  experiment = record ((in_state success).experiment) {
    annotations = (evict_resources_at_annotation, "10") ∷ [];
  };
  stored_annotations = (evict_resources_at_annotation, "10") ∷ [];
}

create_components-component_definitions_example :
    let cs =
      (create_components calm component_definitions [] (in_state init)).1.experiment.conditions in
    (condition_of "Messaging" cs ≡ some (verdict_of_component calm "messaging-service.yaml"))
    × (condition_of "ExperimentExecutor" cs
        ≡ some (verdict_of_component calm "experiment-executor-service.yaml"))
    × (condition_of "EventsWebapp" cs
        ≡ some (verdict_of_component calm "events-webapp-service.yaml"))
    × (condition_of "Mqtt2prom" cs ≡ some (verdict_of_component calm "mqtt2prom-service.yaml"))
    × (condition_of "WebUi" cs ≡ some (verdict_of_component calm "web-ui-ingress.yaml"))
create_components-component_definitions_example =
    create_components-component_definitions calm (in_state init)

evaluate_experiment_outcome-eq-ended_in_example :
    (evaluate_experiment_outcome calm (in_state ongoing)).1.experiment.state ≡ failure
unfolding ended_in outcome_of all any_phase
evaluate_experiment_outcome-eq-ended_in_example =
    evaluate_experiment_outcome-eq-ended_in calm (in_state ongoing)

fail_components-eq-ongoing_example :
    ((fail_components calm library false (in_state ongoing)).1.experiment.state ≡ ongoing)
    × ((fail_components calm library false (in_state ongoing)).0 ≡ none)
fail_components-eq-ongoing_example =
    fail_components-eq-ongoing calm library 200 (in_state ongoing) refl refl (omega arith)

state-advance_example : (advance calm library (in_state init)).1.experiment.state ≡ ongoing
unfolding has_unschedulable_pods all_true
state-advance_example = state-advance calm library (in_state init) refl

due : IsDue library (pos 12) stamped_success
unfolding is_evicted annotation lookup is_terminal_experiment_state ◌-ℤ◌
due = record {
  after = pos 5;
  stamp = "10";
  deadline = pos 10;
  wanted = refl;
  positive = refl;
  ended = refl;
  kept = refl;
  stamped = refl;
  parsed = refl;
  come = refl;
}

is_evicted-maybe_evict_resources_example :
    is_evicted (stored (maybe_evict_resources calm library (pos 12) stamped_success).recon) ≡ true
unfolding frees frees_items refused is_evicted annotation lookup
is_evicted-maybe_evict_resources_example =
    is_evicted-maybe_evict_resources calm library (pos 12) stamped_success due refl

deleted_something : (maybe_evict_resources calm library (pos 12) stamped_success).deleted ≢ []
unfolding frees frees_items refused listed
deleted_something e =
    cc (e, deleted-maybe_evict_resources calm library (pos 12) stamped_success due refl)

IsDue-maybe_evict_resources_example : IsDue library (pos 12) stamped_success
IsDue-maybe_evict_resources_example =
    IsDue-maybe_evict_resources calm library (pos 12) stamped_success deleted_something

fresh : IsFresh (pos 5) (in_state success)
unfolding is_evicted annotation lookup is_terminal_experiment_state
fresh = record { wanted = refl; positive = refl; ended = refl; kept = refl; unstamped = refl }

maybe_evict_resources-eventually_example :
    let r = (maybe_evict_resources calm library (pos 5) (in_state success)).recon in
    let second = maybe_evict_resources calm library (pos 12) (again r) in
    (is_evicted (stored second.recon) ≡ true)
    × (second.error ≡ none)
    × (second.deleted ≡ "sat-1" ∷ "gs-1" ∷ "messaging" ∷ [])
unfolding frees frees_items refused listed ◌-ℤ◌
maybe_evict_resources-eventually_example =
    maybe_evict_resources-eventually calm library calm (pos 5) (pos 5) (pos 12) (pos 10)
      (in_state success) fresh refl refl refl refl refl refl

abbrev objects : List (Result ApiError (List OwnedObject))
objects =
    ok (
      record {
        object = record { kind = "Pod"; name = "sat-1" };
        owners = record { kind = "Experiment"; name = "demo" } ∷ [];
      }
      ∷ record { object = record { kind = "Pod"; name = "stray" }; owners = [] }
      ∷ [])
    ∷ []

abbrev sat_pod : ObjectRef
sat_pod = record { kind = "Pod"; name = "sat-1" }

delete_experiment_objects-eq-OwnedIn_example :
    let (e, asked) = delete_experiment_objects (λ ref. none) "demo" objects [] in
    ((contains asked sat_pod ≡ false) ⊎ OwnedIn "demo" objects sat_pod)
    × ((is_none e ≡ false) ⊎ ((contains asked sat_pod ≡ true) ↔ OwnedIn "demo" objects sat_pod))
delete_experiment_objects-eq-OwnedIn_example =
    delete_experiment_objects-eq-OwnedIn (λ ref. none) "demo" objects sat_pod
