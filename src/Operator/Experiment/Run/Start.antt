-- ===== src/Operator/Experiment/Run/Start.antt =====
-- How a run is brought up and started
-- (yass-operator/internal/controller/experiment/experiment_controller.go).
use yass_simulator.Base.{
  ◌≡◌, refl, ap, ◌∙◌, Bool, true, false, ◌&&◌, ◌||◌, not, Option, List, arith, ltb, ◌==◌, string_eq,
  if◌then◌else◌,
}
use yass_simulator.Base.Result.{Result, ok, err}
use yass_simulator.Operator.Experiment.{
  ExperimentState, init, ready, insufficient_resources, ongoing, state_eq, state_beq_iff, ApiError,
  Recon, experiment_started,
}
use yass_simulator.Operator.Experiment.Conditions.{update_experiment_state, set_state, add_event}
use yass_simulator.Operator.Experiment.Cluster.{
  Cluster, Library, Pod, Reply, responded, no_such_host, post_failed,
}
use yass_simulator.Operator.Experiment.Run.{
  Failure, and_then, replied, is_true, capacity, surface_capacity, become_ready, fail_components,
  check_restarts, start_run, started, advance, has_unschedulable_pods,
}
use yass_simulator.Operator.Experiment.Run.Outcome.{state-update_experiment_state}

-- The state of a run that is coming up, by the answer about its pods.
abbrev pub surfaced : Result ApiError (List Pod) → ExperimentState → ExperimentState
surfaced (err e) s = s
surfaced (ok pods) s = if has_unschedulable_pods pods then insufficient_resources else init

abbrev pub accepts : Reply → Bool
accepts no_such_host = false
accepts post_failed = false
accepts (responded status) = ltb status 400

abbrev pub is_coming_up : ExperimentState → Bool
is_coming_up s = s == init || s == insufficient_resources

is_coming_up-surfaced :
    (answer : Result ApiError (List Pod)) (s : ExperimentState)
    → is_coming_up s ≡ true
    → is_coming_up (surfaced answer s) ≡ true
is_coming_up-surfaced (err e) s h = h
is_coming_up-surfaced (ok pods) s h = ground arith

module _ (k : Cluster) (lib : Library) where
  state-surface_capacity :
      (r : Recon)
      → is_coming_up r.experiment.state ≡ true
      → (surface_capacity k lib r).experiment.state ≡ surfaced k.pods r.experiment.state
  unfolding surface_capacity capacity add_event
  state-surface_capacity r h = ground (
    arith,
    state_beq_iff r.experiment.state init,
    state-update_experiment_state init r,
    state-update_experiment_state insufficient_resources r,
  )

  start-surface_capacity :
      (r : Recon) → (surface_capacity k lib r).experiment.start ≡ r.experiment.start
  unfolding surface_capacity capacity update_experiment_state set_state add_event
  start-surface_capacity r = ground arith

  start-become_ready :
      (b : Bool) (r : Recon) → (become_ready k lib b r).experiment.start ≡ r.experiment.start
  unfolding become_ready update_experiment_state set_state add_event
  start-become_ready b r = ground arith

  state-become_ready :
      (b : Bool) (r : Recon)
      → (become_ready k lib b r).experiment.state
        ≡ (if r.experiment.state == init && b then ready else r.experiment.state)
  unfolding become_ready
  state-become_ready b r = ground (arith, state-update_experiment_state ready r)

  state-start_run :
      (r : Recon)
      → (start_run k lib r).1.experiment.state ≡ (
          if r.experiment.state == ready && (r.experiment.start && accepts (k.post "start"))
          then ongoing
          else r.experiment.state)
  unfolding start_run started replied add_event
  state-start_run r =
      ground (arith, state-update_experiment_state ongoing (add_event experiment_started r))

  state-risen :
      (b : Bool) (r : Recon)
      → is_coming_up r.experiment.state ≡ true
      → (become_ready k lib b (surface_capacity k lib r)).experiment.state ≡ (
          if surfaced k.pods r.experiment.state == init && b
          then ready
          else surfaced k.pods r.experiment.state)
  state-risen b r h =
      state-become_ready b (surface_capacity k lib r) ∙ rw (state-surface_capacity r h) refl

  start-risen :
      (b : Bool) (r : Recon)
      → (become_ready k lib b (surface_capacity k lib r)).experiment.start ≡ r.experiment.start
  start-risen b r = start-become_ready b (surface_capacity k lib r) ∙ start-surface_capacity r

  is_quiet :
      (b : Bool) (r : Recon)
      → is_coming_up r.experiment.state ≡ true
      → (let s = (become_ready k lib b (surface_capacity k lib r)).experiment.state in
          s == ongoing || s == ready && not b)
        ≡ false
  is_quiet b r h =
      ground (arith, state-risen b r h, is_coming_up-surfaced k.pods r.experiment.state h)

  -- No step between the two applies to a run that has just come up.
  fail_components-quiet :
      (b : Bool) (r : Recon)
      → (r.experiment.state == ongoing || r.experiment.state == ready && not b) ≡ false
      → and_then
          (fail_components k lib b r)
          (λ r'. and_then (check_restarts k lib r') (start_run k lib))
        ≡ start_run k lib r
  unfolding fail_components check_restarts
  fail_components-quiet b r h = ground arith

  -- A run that is coming up, in Init or in InsufficientResources, is in InsufficientResources where a
  -- pod cannot be placed (and where it was, if the pods cannot be listed); else it stays in Init as long
  -- as a condition is not true; else it is Ongoing if it is to start and the executor takes the request
  -- with a status below 400, and Ready if not.
  pub state-advance :
      (r : Recon)
      → is_coming_up r.experiment.state ≡ true
      → (advance k lib r).1.experiment.state ≡ (
          if surfaced k.pods r.experiment.state == insufficient_resources
          then insufficient_resources
          else if not (lib.all_match r.experiment.conditions is_true)
          then init
          else if r.experiment.start && accepts (k.post "start")
          then ongoing
          else ready)
  unfolding advance
  state-advance r h =
      let all_true = lib.all_match r.experiment.conditions is_true in
      let risen = become_ready k lib all_true (surface_capacity k lib r) in
      ap (λ (done : Option Failure × Recon). done.1.experiment.state)
        (fail_components-quiet all_true risen (is_quiet all_true r h))
      ∙ state-start_run risen
      ∙ ground (
        arith,
        state-risen all_true r h,
        start-risen all_true r,
        is_coming_up-surfaced k.pods r.experiment.state h,
      )
