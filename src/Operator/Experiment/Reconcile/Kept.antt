-- ===== src/Operator/Experiment/Reconcile/Kept.antt =====
-- What the creation of the objects and the eviction leave as it is
-- (yass-operator/internal/controller/experiment/experiment_controller.go).
use yass_simulator.Base.{
  String, ◌≡◌, refl, Option, none, some, List, [], ◌∷◌, string_eq, Bool-cases, inl, inr, false,
  ◌==◌, ◌||◌, not,
}
use yass_simulator.Base.Int.{ℤ, pos, ◌-ℤ◌, ltb_ℤ, leb_ℤ}
use yass_simulator.Base.Map.{lookup}
use yass_simulator.Base.Result.{Result, ok, err}
use yass_simulator.Operator.Experiment.{
  ExperimentState, ApiError, Object, plain, Event, eviction_scheduled, resources_evicted, Recon,
  annotation, is_evicted,
}
use yass_simulator.Operator.Experiment.Conditions.{update_status_condition}
use yass_simulator.Operator.Experiment.Cluster.{Cluster, Library}
use yass_simulator.Operator.Experiment.Components.{
  Component, concluded, found_or_created, create_experiment_component_if_required,
  create_components, create_fs_node_resource, node_component, create_nodes,
}
use yass_simulator.Operator.Experiment.Run.{Failure}
use yass_simulator.Operator.Experiment.Run.Moves.{IsTraced, IsTraced-add_event, is_transition}
use yass_simulator.Operator.Experiment.Run.Lifecycle.{IsTraced-update_stored}
use yass_simulator.Operator.Experiment.Eviction.{
  answered, behind_update, Evicted, set_experiment_annotation, evicted_with, evict_at,
  evict_stamped, evict_after, evict_experiment_resources, evict_resources_at_annotation,
  is_terminal_experiment_state, requeue_until,
}
use yass_simulator.Operator.Experiment.Reconcile.{
  check_references, definition_of, layout_of, error_of,
}

module _ (s : ExperimentState) where
  pub IsTraced-update_status_condition :
      (comp type : String) (obj : Object) (extra : Option ApiError) (r : Recon)
      → IsTraced s r
      → IsTraced s (update_status_condition comp type obj extra r)
  unfolding update_status_condition
  IsTraced-update_status_condition comp type obj extra r trace = elim (Bool-cases (comp == "")) [
    | inl nameless ↦ rw nameless trace
    | inr named ↦ rw named trace
  ]

  IsTraced-concluded :
      (found : Result ApiError Object) (c : Component) (r : Recon)
      → IsTraced s r
      → IsTraced s (concluded found c r).1
  unfolding concluded
  IsTraced-concluded (ok obj) c r trace =
      IsTraced-update_status_condition c.comp_name c.condition_type obj none r trace
  IsTraced-concluded (err e) c r trace =
      IsTraced-update_status_condition c.comp_name c.condition_type plain (some e) r trace

  module _ (k : Cluster) where
    pub IsTraced-create_components :
        (cs : List Component) (errors : List ApiError) (r : Recon)
        → IsTraced s r
        → IsTraced s (create_components k cs errors r).1
    unfolding create_components create_experiment_component_if_required
    IsTraced-create_components [] errors r trace = trace
    IsTraced-create_components (c ∷ cs) errors r trace = IsTraced-create_components cs _ _ (
        IsTraced-concluded
          (found_or_created (k.get_component c.f_name) (k.create_component c.f_name)) c r trace)

    pub IsTraced-create_nodes :
        (behaviours names : List String) (errors : List ApiError) (r : Recon)
        → IsTraced s r
        → IsTraced s (create_nodes k behaviours names errors r).1
    unfolding create_nodes
    IsTraced-create_nodes behaviours [] errors r trace = trace
    IsTraced-create_nodes behaviours (name ∷ names) errors r trace =
        IsTraced-create_nodes behaviours names _ _ (
          IsTraced-concluded (create_fs_node_resource k behaviours name) (node_component k name) r
            trace)

  module _ (k : Cluster) (lib : Library) where
    pub IsTraced-check_references :
        (r : Recon) → IsTraced s r → IsTraced s (check_references k lib r)
    unfolding check_references
    IsTraced-check_references r trace =
        IsTraced-update_status_condition "layout" "Layout" plain
          (error_of (layout_of k lib r.experiment)) _
          (IsTraced-update_status_condition "experiment-definition" "ExperimentDefinition" plain
            (error_of (definition_of k lib r.experiment)) r trace)

    IsTraced-set_experiment_annotation :
        (key value : String) (r : Recon)
        → IsTraced s r
        → IsTraced s (set_experiment_annotation k lib key value r).1
    unfolding set_experiment_annotation
    IsTraced-set_experiment_annotation key value r trace =
        elim (Bool-cases (annotation key r.experiment == value)) [
          | inl same ↦ rw same trace
          | inr other ↦ rw other (IsTraced-update_stored s k.update_answer key value r trace)
        ]

    IsTraced-behind_update :
        (delay : ℤ) (e : Event) (done : Option Failure × Recon)
        → is_transition e ≡ false
        → IsTraced s done.1
        → IsTraced s (behind_update delay e done).recon
    unfolding behind_update answered
    IsTraced-behind_update delay e (none, r) aside trace = IsTraced-add_event s e r aside trace
    IsTraced-behind_update delay e (some f, r) aside trace = trace

    IsTraced-evicted_with :
        (done : Option ApiError × Evicted) (r : Recon)
        → IsTraced s r
        → IsTraced s (evicted_with k lib done r).recon
    unfolding evicted_with
    IsTraced-evicted_with (none, evicted) r trace =
        IsTraced-behind_update (pos 0) resources_evicted _ refl
          (IsTraced-set_experiment_annotation _ _ r trace)
    IsTraced-evicted_with (some e, evicted) r trace = trace

    IsTraced-evict_at :
        (now after : ℤ) (deadline : Option ℤ) (r : Recon)
        → IsTraced s r
        → IsTraced s (evict_at k lib now after deadline r).recon
    unfolding evict_at answered
    IsTraced-evict_at now after none r trace = IsTraced-set_experiment_annotation _ _ r trace
    IsTraced-evict_at now after (some deadline) r trace =
        elim (Bool-cases (ltb_ℤ (pos 0) (deadline -ℤ now))) [
          | inl early ↦ rw early trace
          | inr come ↦ rw come (IsTraced-evicted_with (evict_experiment_resources k lib) r trace)
        ]

    IsTraced-evict_stamped :
        (now after : ℤ) (stamp : Option String) (r : Recon)
        → IsTraced s r
        → IsTraced s (evict_stamped k lib now after stamp r).recon
    unfolding evict_stamped
    IsTraced-evict_stamped now after none r trace =
        IsTraced-behind_update (requeue_until after) eviction_scheduled _ refl
          (IsTraced-set_experiment_annotation _ _ r trace)
    IsTraced-evict_stamped now after (some stamp) r trace =
        IsTraced-evict_at now after (lib.parse_time stamp) r trace

    pub IsTraced-evict_after :
        (now : ℤ) (after : Option ℤ) (r : Recon)
        → IsTraced s r
        → IsTraced s (evict_after k lib now after r).recon
    unfolding evict_after answered
    IsTraced-evict_after now none r trace = trace
    IsTraced-evict_after now (some after) r trace =
        elim (Bool-cases (
          leb_ℤ after (pos 0)
          || (not (is_terminal_experiment_state r.experiment.state) || is_evicted r.experiment))) [
            | inl waits ↦ rw waits trace
            | inr due ↦ rw due (
                IsTraced-evict_stamped now after
                  (lookup evict_resources_at_annotation r.experiment.annotations) r trace)
          ]
