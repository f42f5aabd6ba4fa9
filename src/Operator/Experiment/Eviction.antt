-- ===== src/Operator/Experiment/Eviction.antt =====
-- The resources of a run that has ended: `isTerminalExperimentState`, `maybeEvictResources`,
-- `requeueUntil`, `evictExperimentResources` and `setExperimentAnnotation` of
-- yass-operator/internal/controller/experiment/experiment_controller.go. Times and durations are in
-- nanoseconds; `now` is the clock during the call.
pub mod Freed
pub mod Deadline
pub mod Eventually
use yass_simulator.Base.{
  ℕ, ◌+◌, ◌*◌, String, Bool, true, false, ◌&&◌, ◌||◌, not, Option, none, some, List, [], ◌∷◌, ◌++◌,
  ltb, ◌==◌, string_eq, if◌then◌else◌,
}
use yass_simulator.Base.Int.{ℤ, pos, ◌+ℤ◌, ◌-ℤ◌, ltb_ℤ, leb_ℤ}
use yass_simulator.Base.Map.{lookup}
use yass_simulator.Base.Result.{Result, ok, err}
use yass_simulator.Operator.Experiment.{
  ExperimentState, errored, timed_out, success, failure, ApiError, missing, other, Experiment,
  Event, eviction_scheduled, resources_evicted, Recon, resources_evicted_annotation, is_evicted,
  annotation,
}
use yass_simulator.Operator.Experiment.Conditions.{add_event}
use yass_simulator.Operator.Experiment.Cluster.{Cluster, Library}
use yass_simulator.Operator.Experiment.Run.{Failure, api_failed, annotated, update_stored}

unfoldable pub is_terminal_experiment_state : ExperimentState → Bool
is_terminal_experiment_state success = true
is_terminal_experiment_state failure = true
is_terminal_experiment_state timed_out = true
is_terminal_experiment_state errored = true
is_terminal_experiment_state _ = false

abbrev pub seconds : ℕ → ℤ
seconds n = pos (1000000000 * n)

-- requeueUntil for a deadline that is so far away.
unfoldable pub requeue_until : ℤ → ℤ
requeue_until d =
    if ltb_ℤ d (seconds 1) then seconds 1 else if ltb_ℤ (seconds 60) d then seconds 60 else d

abbrev pub evict_resources_at_annotation : String
evict_resources_at_annotation = "experiment-controller/evict-resources-at"

-- The objects whose deletion was requested, and how many of these requests went well.
pub record Evicted : Type 0 where
  pub asked : List String
  pub count : ℕ

-- Another error than that the object is not found.
unfoldable pub refused : Option ApiError → Option ApiError
refused (some (other text)) = some (other text)
refused _ = none

asked_for : String → Evicted → Evicted
asked_for name s = record s { asked = s.asked ++ name ∷ [] }

count_one : Evicted → Evicted
count_one s = record s { count = s.count + 1 }

-- What a call comes to: how long to wait, its error, and the experiment.
pub record Answer : Type 0 where
  pub requeue_after : ℤ
  pub error : Option Failure
  pub deleted : List String
  pub recon : Recon

unfoldable pub answered : ℤ → Option Failure × Recon → Answer
answered delay (e, r) = record { requeue_after = delay; error = e; deleted = []; recon = r }

-- Behind an update of the experiment that went well.
unfoldable pub behind_update : ℤ → Event → Option Failure × Recon → Answer
unfolding answered
behind_update delay event (none, r) = answered delay (none, add_event event r)
behind_update delay event (some e, r) = answered (pos 0) (some e, r)

module _ (k : Cluster) (lib : Library) where
  -- The loop over the objects of one list.
  unfoldable pub evict_items : List String → Evicted → Option ApiError × Evicted
  unfolding asked_for count_one
  evict_items [] s = (none, s)
  evict_items (name ∷ names) s = elim (refused (k.delete_object name)) [
    | none ↦ evict_items names (count_one (asked_for name s))
    | some e ↦ (some e, asked_for name s)
  ]

  -- The loop over the lists.
  unfoldable pub evict_lists :
      List (Result ApiError (List String)) → Evicted → Option ApiError × Evicted
  evict_lists [] s = (none, s)
  evict_lists (err e ∷ lists) s = (some e, s)
  evict_lists (ok names ∷ lists) s =
      let (e, s') = evict_items names s in
      elim e [ none ↦ evict_lists lists s' | some error ↦ (some error, s') ]

  abbrev pub evict_experiment_resources : Option ApiError × Evicted
  evict_experiment_resources = evict_lists k.workloads (record { asked = []; count = 0 })

  unfoldable pub set_experiment_annotation : String → String → Recon → Option Failure × Recon
  unfolding annotated update_stored
  set_experiment_annotation key value r =
      if annotation key r.experiment == value
      then (none, r)
      else update_stored k.update_answer (annotated key value r)

  -- With the answer of evictExperimentResources.
  unfoldable pub evicted_with : Option ApiError × Evicted → Recon → Answer
  unfolding behind_update
  evicted_with (some e, s) r = record {
    requeue_after = seconds 10;
    error = some (api_failed e);
    deleted = s.asked;
    recon = r;
  }
  evicted_with (none, s) r =
      record (behind_update (pos 0) resources_evicted
        (set_experiment_annotation resources_evicted_annotation "true" r)) { deleted = s.asked }

  -- With the deadline that the annotation states.
  unfoldable pub evict_at : ℤ → ℤ → Option ℤ → Recon → Answer
  unfolding answered
  evict_at now after none r =
      answered (pos 0)
        (set_experiment_annotation evict_resources_at_annotation (lib.format_time (now +ℤ after)) r)
  evict_at now after (some deadline) r =
      if ltb_ℤ (pos 0) (deadline -ℤ now)
      then answered (requeue_until (deadline -ℤ now)) (none, r)
      else evicted_with evict_experiment_resources r

  unfoldable pub evict_stamped : ℤ → ℤ → Option String → Recon → Answer
  unfolding behind_update
  evict_stamped now after none r =
      behind_update (requeue_until after) eviction_scheduled
        (set_experiment_annotation evict_resources_at_annotation (lib.format_time (now +ℤ after)) r)
  evict_stamped now after (some deadline) r = evict_at now after (lib.parse_time deadline) r

  unfoldable pub evict_after : ℤ → Option ℤ → Recon → Answer
  unfolding answered
  evict_after now none r = answered (pos 0) (none, r)
  evict_after now (some after) r =
      if leb_ℤ after (pos 0)
        || (not (is_terminal_experiment_state r.experiment.state) || is_evicted r.experiment)
      then answered (pos 0) (none, r)
      else evict_stamped now after (lookup evict_resources_at_annotation r.experiment.annotations) r

  abbrev pub maybe_evict_resources : ℤ → Recon → Answer
  maybe_evict_resources now r = evict_after now r.experiment.evict_resources_after r
