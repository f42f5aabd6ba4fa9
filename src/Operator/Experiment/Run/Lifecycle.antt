-- ===== src/Operator/Experiment/Run/Lifecycle.antt =====
-- The steps of a run keep the trace of its states
-- (yass-operator/internal/controller/experiment/experiment_controller.go).
use yass_simulator.Base.{
  String, ◌≡◌, refl, sym, subst, Bool, true, false, ◌&&◌, ◌||◌, not, Option, none, some, List, [],
  ◌∷◌, arith, ◌==◌, Bool-cases, inl, inr, ltb,
}
use yass_simulator.Base.Int.{ℤ, pos, ltb_ℤ}
use yass_simulator.Base.Result.{Result, ok, err}
use yass_simulator.Operator.Phase.{FsNodePhase}
use yass_simulator.Operator.Experiment.{
  ExperimentState, init, ready, insufficient_resources, errored, ongoing, timed_out, success,
  failure, state_eq, ApiError, Recon, component_failed, component_restarted, experiment_started,
  experiment_not_started, insufficient, start_signal_sent, start_pending, start_signal_error,
}
use yass_simulator.Operator.Experiment.Conditions.{update_experiment_state, add_event}
use yass_simulator.Operator.Experiment.Cluster.{
  Cluster, Library, Pod, Reply, no_such_host, post_failed, responded,
}
use yass_simulator.Operator.Experiment.Run.{
  Failure, api_failed, components_failed, executor_not_in_dns, executor_failed, and_then, replied,
  capacity, has_unschedulable_pods, surface_capacity, become_ready, fail_components, check_restarts,
  counted_restarts, compared, annotated, saved, update_stored, restart_baseline,
  experiment_restart_total, start_run, started, advance, is_true, aggregate, decided, evaluated,
  evaluate_experiment_outcome,
}
use yass_simulator.Operator.Experiment.Run.Outcome.{state-update_experiment_state}
use yass_simulator.Operator.Experiment.Run.Moves.{
  moves, Follows, beside, IsTraced, IsTraced-add_event, IsTraced-update_experiment_state,
}

IsTraced-capacity :
    (s : ExperimentState) (answer : Result ApiError (List Pod)) (r : Recon)
    → (r.experiment.state == init || r.experiment.state == insufficient_resources) ≡ true
    → IsTraced s r
    → IsTraced s (capacity answer r)
unfolding capacity moves
IsTraced-capacity s (err e) r coming trace = trace
IsTraced-capacity s (ok pods) r coming trace =
    let starving =
      has_unschedulable_pods pods && not (r.experiment.state == insufficient_resources) in
    let placed =
      not (has_unschedulable_pods pods) && r.experiment.state == insufficient_resources in
    elim (Bool-cases starving) [
      | inl known ↦ rw known (
          IsTraced-add_event s insufficient (update_experiment_state insufficient_resources r) refl
            (IsTraced-update_experiment_state s insufficient_resources r
              (ground (arith, coming, known)) trace))
      | inr calm ↦ elim (Bool-cases placed) [
        | inl known ↦
            rw (calm, known)
              (IsTraced-update_experiment_state s init r (ground (arith, coming, known)) trace)
        | inr neither ↦ rw (calm, neither) trace
      ]
    ]

IsTraced-surface_capacity :
    (k : Cluster) (lib : Library) (s : ExperimentState) (r : Recon)
    → IsTraced s r
    → IsTraced s (surface_capacity k lib r)
unfolding surface_capacity
IsTraced-surface_capacity k lib s r trace =
    elim (Bool-cases (r.experiment.state == init || r.experiment.state == insufficient_resources)) [
      | inl coming ↦ rw coming (IsTraced-capacity s k.pods r coming trace)
      | inr other ↦ rw other trace
    ]

IsTraced-become_ready :
    (k : Cluster) (lib : Library) (s : ExperimentState) (b : Bool) (r : Recon)
    → IsTraced s r
    → IsTraced s (become_ready k lib b r)
unfolding become_ready moves
IsTraced-become_ready k lib s b r trace = elim (Bool-cases (r.experiment.state == init && b)) [
  | inl fine ↦ rw fine (IsTraced-update_experiment_state s ready r (ground (arith, fine)) trace)
  | inr other ↦ rw other trace
]

IsTraced-replied :
    (s : ExperimentState) (reply : Reply) (r : Recon)
    → Follows r.experiment.state ongoing
    → IsTraced s r
    → IsTraced s (replied reply r).1
unfolding replied add_event
IsTraced-replied s no_such_host r follows trace = trace
IsTraced-replied s post_failed r follows trace = beside experiment_not_started refl trace
IsTraced-replied s (responded status) r follows trace = elim (Bool-cases (ltb status 400)) [
  | inl taken ↦ rw taken (
      IsTraced-update_experiment_state s ongoing (add_event experiment_started r) follows
        (beside experiment_started refl trace))
  | inr refused ↦ rw refused (beside experiment_not_started refl trace)
]

IsTraced-fail_components :
    (k : Cluster) (lib : Library) (s : ExperimentState) (b : Bool) (r : Recon)
    → IsTraced s r
    → IsTraced s (fail_components k lib b r).1
unfolding fail_components moves add_event
IsTraced-fail_components k lib s b r trace =
    elim (Bool-cases (not b && (r.experiment.state == ready || r.experiment.state == ongoing))) [
      | inl broken ↦
          let r' = update_experiment_state errored r in
          let follows : Follows r'.experiment.state ongoing =
            subst (λ (t : ExperimentState). Follows t ongoing)
              (sym (state-update_experiment_state errored r)) refl in
          rw broken (
            IsTraced-replied s (k.post "error-report") (add_event component_failed r') follows (
              beside component_failed refl
                (IsTraced-update_experiment_state s errored r (ground (arith, broken)) trace)))
      | inr other ↦ rw other trace
    ]

pub IsTraced-update_stored :
    (s : ExperimentState) (answer : Option ApiError) (key value : String) (r : Recon)
    → IsTraced s r
    → IsTraced s (update_stored answer (annotated key value r)).1
unfolding update_stored saved annotated
IsTraced-update_stored s none key value r trace = trace
IsTraced-update_stored s (some e) key value r trace = trace

module _ (k : Cluster) (lib : Library) where
  IsTraced-compared :
      (s : ExperimentState) (baseline : Option ℤ) (total : ℤ) (r : Recon)
      → (r.experiment.state == ongoing) ≡ true
      → IsTraced s r
      → IsTraced s (compared k lib baseline total r).1
  unfolding compared moves
  IsTraced-compared s none total r going trace =
      IsTraced-update_stored s k.update_answer _ _ r trace
  IsTraced-compared s (some baseline) total r going trace =
      elim (Bool-cases (ltb_ℤ baseline total)) [
        | inl more ↦ rw more (
            IsTraced-add_event s component_restarted (update_experiment_state errored r) refl
              (IsTraced-update_experiment_state s errored r (ground (arith, going)) trace))
        | inr same ↦ rw same trace
      ]

  IsTraced-counted_restarts :
      (s : ExperimentState) (answer : Result ApiError (List Pod)) (r : Recon)
      → (r.experiment.state == ongoing) ≡ true
      → IsTraced s r
      → IsTraced s (counted_restarts k lib answer r).1
  unfolding counted_restarts
  IsTraced-counted_restarts s (err e) r going trace = trace
  IsTraced-counted_restarts s (ok pods) r going trace =
      IsTraced-compared s (restart_baseline k lib r.experiment)
        (experiment_restart_total pods (pos 0)) r going trace

  IsTraced-check_restarts :
      (s : ExperimentState) (r : Recon) → IsTraced s r → IsTraced s (check_restarts k lib r).1
  unfolding check_restarts
  IsTraced-check_restarts s r trace = elim (Bool-cases (r.experiment.state == ongoing)) [
    | inl going ↦ rw going (IsTraced-counted_restarts s k.all_pods r going trace)
    | inr other ↦ rw other trace
  ]

  IsTraced-started :
      (s : ExperimentState) (done : Option Failure × Recon)
      → IsTraced s done.1
      → IsTraced s (started k lib done).1
  unfolding started add_event
  IsTraced-started s (none, r) trace = beside start_signal_sent refl trace
  IsTraced-started s (some executor_not_in_dns, r) trace = beside start_pending refl trace
  IsTraced-started s (some executor_failed, r) trace = beside start_signal_error refl trace
  IsTraced-started s (some components_failed, r) trace = beside start_signal_error refl trace
  IsTraced-started s (some (api_failed e), r) trace = beside start_signal_error refl trace

  IsTraced-start_run :
      (s : ExperimentState) (r : Recon) → IsTraced s r → IsTraced s (start_run k lib r).1
  unfolding start_run moves
  IsTraced-start_run s r trace =
      elim (Bool-cases (r.experiment.state == ready && r.experiment.start)) [
        | inl wanted ↦ rw wanted (
            IsTraced-started s (replied (k.post "start") r)
              (IsTraced-replied s (k.post "start") r (ground (arith, wanted)) trace))
        | inr other ↦ rw other trace
      ]

  -- A step that may fail keeps the trace if the step before it and the next one do.
  pub IsTraced-and_then :
      (s : ExperimentState) (done : Option Failure × Recon) (step : Recon → Option Failure × Recon)
      → IsTraced s done.1
      → ((r : Recon) → IsTraced s r → IsTraced s (step r).1)
      → IsTraced s (and_then done step).1
  IsTraced-and_then s (none, r) step trace keeps = keeps r trace
  IsTraced-and_then s (some e, r) step trace keeps = trace

  pub IsTraced-advance :
      (s : ExperimentState) (r : Recon) → IsTraced s r → IsTraced s (advance k lib r).1
  unfolding advance
  IsTraced-advance s r trace =
      let all_true = lib.all_match r.experiment.conditions is_true in
      let risen = become_ready k lib all_true (surface_capacity k lib r) in
      IsTraced-and_then s (fail_components k lib all_true risen)
        (λ (r' : Recon). and_then (check_restarts k lib r') (start_run k lib))
        (IsTraced-fail_components k lib s all_true risen (
          IsTraced-become_ready k lib s all_true (surface_capacity k lib r)
            (IsTraced-surface_capacity k lib s r trace)))
        (λ (r' : Recon) (trace' : IsTraced s r').
          IsTraced-and_then s (check_restarts k lib r') (start_run k lib)
            (IsTraced-check_restarts s r' trace') (IsTraced-start_run s))

IsTraced-decided :
    (s : ExperimentState) (answer : Option (Bool × Bool)) (r : Recon)
    → (r.experiment.state == ongoing || r.experiment.state == timed_out) ≡ true
    → IsTraced s r
    → IsTraced s (decided answer r)
unfolding decided moves
IsTraced-decided s none r running trace = trace
IsTraced-decided s (some (true, any_failure)) r running trace =
    IsTraced-update_experiment_state s errored r (ground (arith, running)) trace
IsTraced-decided s (some (false, true)) r running trace =
    IsTraced-update_experiment_state s failure r (ground (arith, running)) trace
IsTraced-decided s (some (false, false)) r running trace =
    IsTraced-update_experiment_state s success r (ground (arith, running)) trace

IsTraced-evaluated :
    (s : ExperimentState) (answer : Result ApiError (List FsNodePhase)) (r : Recon)
    → (r.experiment.state == ongoing || r.experiment.state == timed_out) ≡ true
    → IsTraced s r
    → IsTraced s (evaluated answer r).1
unfolding evaluated
IsTraced-evaluated s (err e) r running trace = trace
IsTraced-evaluated s (ok []) r running trace = trace
IsTraced-evaluated s (ok (phase ∷ phases)) r running trace =
    IsTraced-decided s (aggregate (phase ∷ phases) false false) r running trace

pub IsTraced-evaluate_experiment_outcome :
    (k : Cluster) (s : ExperimentState) (r : Recon)
    → IsTraced s r
    → IsTraced s (evaluate_experiment_outcome k r).1
unfolding evaluate_experiment_outcome
IsTraced-evaluate_experiment_outcome k s r trace =
    elim (Bool-cases (r.experiment.state == ongoing || r.experiment.state == timed_out)) [
      | inl running ↦ rw running (IsTraced-evaluated s k.phases r running trace)
      | inr other ↦ rw other trace
    ]
