-- ===== src/Operator/Experiment/Run/Report.antt =====
-- The report of a failed component to the executor
-- (yass-operator/internal/controller/experiment/experiment_controller.go).
use yass_simulator.Base.{ℕ, ◌<◌, ◌≡◌, true, false, ◌||◌, none, arith, ◌==◌}
use yass_simulator.Operator.Experiment.{
  ready, errored, ongoing, state_eq, Recon, component_failed, experiment_started,
}
use yass_simulator.Operator.Experiment.Conditions.{update_experiment_state, add_event}
use yass_simulator.Operator.Experiment.Cluster.{Cluster, Library, responded}
use yass_simulator.Operator.Experiment.Run.{replied, fail_components}
use yass_simulator.Operator.Experiment.Run.Outcome.{state-update_experiment_state}

-- Where a component has failed in a run that is Ready or Ongoing, and the executor takes the report
-- of it with a status below 400, the run is Ongoing afterwards, and the error is forgotten: the
-- answer to a report is read like the answer to the request to start.
pub fail_components-eq-ongoing :
    (k : Cluster) (lib : Library) (status : ℕ) (r : Recon)
    → (r.experiment.state == ready || r.experiment.state == ongoing) ≡ true
    → k.post "error-report" ≡ responded status
    → status < 400
    → ((fail_components k lib false r).1.experiment.state ≡ ongoing)
      × ((fail_components k lib false r).0 ≡ none)
unfolding fail_components replied
fail_components-eq-ongoing k lib status r state reply fine =
    let r' =
      add_event experiment_started
        (add_event component_failed (update_experiment_state errored r)) in
    rw (state, reply) (ground (arith, state-update_experiment_state ongoing r'))
