-- ===== src/Operator/Experiment/Run.antt =====
-- The states of a run: the second half of `createOrUpdateExperiment`, `httpExperimentExecutor` and
-- `evaluateExperimentOutcome` of
-- yass-operator/internal/controller/experiment/experiment_controller.go.
pub mod Outcome
pub mod Report
pub mod Moves
pub mod Lifecycle
pub mod Start
use yass_simulator.Base.{
  ℕ, String, Bool, true, false, ◌&&◌, ◌||◌, not, Option, none, some, List, [], ◌∷◌, ltb, ◌==◌,
  string_eq, if◌then◌else◌,
}
use yass_simulator.Base.Int.{ℤ, pos, ◌+ℤ◌, ltb_ℤ, int32}
use yass_simulator.Base.Map.{Map, lookup, insert}
use yass_simulator.Base.Result.{Result, ok, err}
use yass_simulator.Operator.Phase.{FsNodePhase, phase_errored, mission_fail, is_terminal}
use yass_simulator.Operator.Experiment.{
  ExperimentState, unset, init, ready, insufficient_resources, errored, ongoing, timed_out, success,
  failure, state_eq, ConditionStatus, condition_true, condition_false, condition_unknown, Condition,
  ApiError, Experiment, Event, layout_too_large, insufficient, component_failed,
  component_restarted, experiment_not_started, experiment_started, start_pending,
  start_signal_error, start_signal_sent, Recon,
}
use yass_simulator.Operator.Experiment.Conditions.{add_event, update_experiment_state}
use yass_simulator.Operator.Experiment.Cluster.{
  Cluster, Reply, no_such_host, post_failed, responded, PodCondition, Pod, Library,
}

-- The errors of Reconcile, without their texts.
pub data Failure : Type 0 where
  api_failed : ApiError → Failure
  components_failed : Failure
  executor_not_in_dns executor_failed : Failure

-- A step returns its error, and the next step runs where there is none.
abbrev pub and_then :
    Option Failure × Recon → (Recon → Option Failure × Recon) → Option Failure × Recon
and_then (none, r) step = step r
and_then (some e, r) step = (some e, r)

-- httpExperimentExecutor behind the request.
unfoldable pub replied : Reply → Recon → Option Failure × Recon
replied no_such_host r = (some executor_not_in_dns, r)
replied post_failed r = (some executor_failed, add_event experiment_not_started r)
replied (responded status) r =
    if ltb status 400
    then (none, update_experiment_state ongoing (add_event experiment_started r))
    else (none, add_event experiment_not_started r)

unfoldable pub is_true : Condition → Bool
is_true c = elim c.status [
  | condition_true ↦ true
  | condition_false ↦ false
  | condition_unknown ↦ false
]

-- Whether a pod has the condition PodScheduled=False for the reason Unschedulable.
is_unplaced : List PodCondition → Bool
is_unplaced [] = false
is_unplaced (c ∷ cs) = c.pod_scheduled && (c.is_false && c.unschedulable) || is_unplaced cs

unfoldable pub has_unschedulable_pods : List Pod → Bool
unfolding is_unplaced
has_unschedulable_pods [] = false
has_unschedulable_pods (p ∷ ps) =
    p.is_pending && is_unplaced p.pod_conditions || has_unschedulable_pods ps

-- An answer about the pods turns Init into InsufficientResources or back.
capacity : Result ApiError (List Pod) → Recon → Recon
unfolding has_unschedulable_pods
capacity (err e) r = r
capacity (ok pods) r =
    if has_unschedulable_pods pods && not (r.experiment.state == insufficient_resources)
    then add_event insufficient (update_experiment_state insufficient_resources r)
    else if not (has_unschedulable_pods pods) && r.experiment.state == insufficient_resources
    then update_experiment_state init r
    else r

add_counts : List ℤ → ℤ → ℤ
add_counts [] total = total
add_counts (n ∷ ns) total = add_counts ns (int32 (total +ℤ n))

-- experimentRestartTotal: the sum, in int32.
unfoldable pub experiment_restart_total : List Pod → ℤ → ℤ
unfolding add_counts
experiment_restart_total [] total = total
experiment_restart_total (p ∷ ps) total =
    experiment_restart_total ps (add_counts p.restart_counts total)

abbrev pub restart_baseline_annotation : String
restart_baseline_annotation = "experiment-controller/restart-baseline"

unfoldable pub annotated : String → String → Recon → Recon
annotated key value r = record r {
  experiment = record (r.experiment) { annotations = insert key value r.experiment.annotations };
}

unfoldable pub saved : Recon → Recon
saved r = record r { stored_annotations = r.experiment.annotations }

-- Update of the experiment, by its answer: a refused one leaves what is stored as it is.
unfoldable pub update_stored : Option ApiError → Recon → Option Failure × Recon
unfolding saved
update_stored none r = (none, saved r)
update_stored (some e) r = (some (api_failed e), r)

module _ (k : Cluster) (lib : Library) where
  unfoldable pub surface_capacity : Recon → Recon
  unfolding capacity
  surface_capacity r =
      if r.experiment.state == init || r.experiment.state == insufficient_resources
      then capacity k.pods r
      else r

  -- `ready` is whether all conditions are true.
  unfoldable pub become_ready : Bool → Recon → Recon
  become_ready all_true r =
      if r.experiment.state == init && all_true then update_experiment_state ready r else r

  -- The report of a component that failed.
  unfoldable pub fail_components : Bool → Recon → Option Failure × Recon
  fail_components all_true r =
      if not all_true && (r.experiment.state == ready || r.experiment.state == ongoing)
      then replied (k.post "error-report")
          (add_event component_failed (update_experiment_state errored r))
      else (none, r)

  -- restartBaseline: an annotation that is missing or no number reads as none.
  unfoldable pub restart_baseline : Experiment → Option ℤ
  restart_baseline e = elim (lookup restart_baseline_annotation e.annotations) [
    | none ↦ none
    | some v ↦ elim (lib.atoi v) [ none ↦ none | some n ↦ some (int32 n) ]
  ]

  compared : Option ℤ → ℤ → Recon → Option Failure × Recon
  unfolding annotated update_stored
  compared none total r =
      update_stored k.update_answer (annotated restart_baseline_annotation (lib.itoa total) r)
  compared (some baseline) total r =
      if ltb_ℤ baseline total
      then (none, add_event component_restarted (update_experiment_state errored r))
      else (none, r)

  counted_restarts : Result ApiError (List Pod) → Recon → Option Failure × Recon
  unfolding compared
  counted_restarts (err e) r = (some (api_failed e), r)
  counted_restarts (ok pods) r =
      compared (restart_baseline r.experiment) (experiment_restart_total pods (pos 0)) r

  unfoldable pub check_restarts : Recon → Option Failure × Recon
  unfolding counted_restarts
  check_restarts r =
      if r.experiment.state == ongoing then counted_restarts k.all_pods r else (none, r)

  started : Option Failure × Recon → Option Failure × Recon
  started (none, r) = (none, add_event start_signal_sent r)
  started (some executor_not_in_dns, r) = (none, add_event start_pending r)
  started (some e, r) = (some e, add_event start_signal_error r)

  unfoldable pub start_run : Recon → Option Failure × Recon
  unfolding started
  start_run r =
      if r.experiment.state == ready && r.experiment.start
      then started (replied (k.post "start") r)
      else (none, r)

  -- createOrUpdateExperiment behind the creation of the objects.
  unfoldable pub advance : Recon → Option Failure × Recon
  advance r =
      let all_true = lib.all_match r.experiment.conditions is_true in
      and_then (fail_components all_true (become_ready all_true (surface_capacity r)))
        (λ r'. and_then (check_restarts r') start_run)

-- The loop of evaluateExperimentOutcome: whether a node is Errored and whether one is MissionFail, or
-- none if a node is still running.
unfoldable pub aggregate : List FsNodePhase → Bool → Bool → Option (Bool × Bool)
aggregate [] any_errored any_failure = some (any_errored, any_failure)
aggregate (phase_errored ∷ phs) any_errored any_failure = aggregate phs true any_failure
aggregate (mission_fail ∷ phs) any_errored any_failure = aggregate phs any_errored true
aggregate (phase ∷ phs) any_errored any_failure =
    let rest = aggregate phs any_errored any_failure in if is_terminal phase then rest else none

decided : Option (Bool × Bool) → Recon → Recon
decided none r = r
decided (some (true, any_failure)) r = update_experiment_state errored r
decided (some (false, true)) r = update_experiment_state failure r
decided (some (false, false)) r = update_experiment_state success r

evaluated : Result ApiError (List FsNodePhase) → Recon → Option Failure × Recon
unfolding decided
evaluated (err e) r = (some (api_failed e), r)
evaluated (ok []) r = (none, r)
evaluated (ok (phase ∷ phases)) r = (none, decided (aggregate (phase ∷ phases) false false) r)

unfoldable pub evaluate_experiment_outcome : Cluster → Recon → Option Failure × Recon
unfolding evaluated
evaluate_experiment_outcome k r =
    if r.experiment.state == ongoing || r.experiment.state == timed_out
    then evaluated k.phases r
    else (none, r)
