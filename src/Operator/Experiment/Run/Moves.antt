-- ===== src/Operator/Experiment/Run/Moves.antt =====
-- The changes of the state of a run, each with its event
-- (yass-operator/internal/controller/experiment/experiment_controller.go).
use yass_simulator.Base.{
  ◌≡◌, Bool, true, false, ◌||◌, List, [], ◌∷◌, ◌++◌, arith, ◌==◌, Bool-cases, inl, inr,
}
use yass_simulator.Operator.Experiment.{
  ExperimentState, unset, init, ready, insufficient_resources, errored, ongoing, timed_out, success,
  failure, state_beq, state_eq, Recon, Event, transition,
}
use yass_simulator.Operator.Experiment.Conditions.{update_experiment_state, set_state, add_event}

-- One change of the state of a run. `report` is the one of a report of a failed component that the
-- executor has taken: httpExperimentExecutor sets Ongoing for it as for the signal to start.
pub data Move : ExperimentState → ExperimentState → Type 0 where
  begin : Move unset init
  starve : Move init insufficient_resources
  recover : Move insufficient_resources init
  come_up : Move init ready
  launch : Move ready ongoing
  break_early : Move ready errored
  break_late : Move ongoing errored
  report : Move errored ongoing
  fail : Move ongoing failure
  succeed : Move ongoing success
  time_out_errored : Move timed_out errored
  time_out_failure : Move timed_out failure
  time_out_success : Move timed_out success

-- The moves as a test.
unfoldable pub moves : ExperimentState → ExperimentState → Bool
moves unset init = true
moves init insufficient_resources = true
moves insufficient_resources init = true
moves init ready = true
moves ready ongoing = true
moves ready errored = true
moves ongoing errored = true
moves ongoing failure = true
moves ongoing success = true
moves errored ongoing = true
moves timed_out errored = true
moves timed_out failure = true
moves timed_out success = true
moves _ _ = false

pub move_of : (s t : ExperimentState) → moves s t ≡ true → Move s t
unfolding moves
move_of unset init h = begin
move_of unset _ h = cc
move_of init insufficient_resources h = starve
move_of init ready h = come_up
move_of init _ h = cc
move_of insufficient_resources init h = recover
move_of insufficient_resources _ h = cc
move_of ready ongoing h = launch
move_of ready errored h = break_early
move_of ready _ h = cc
move_of ongoing errored h = break_late
move_of ongoing failure h = fail
move_of ongoing success h = succeed
move_of ongoing _ h = cc
move_of timed_out errored h = time_out_errored
move_of timed_out failure h = time_out_failure
move_of timed_out success h = time_out_success
move_of timed_out _ h = cc
move_of errored ongoing h = report
move_of errored _ h = cc
move_of success _ h = cc
move_of failure _ h = cc

-- One change at most.
abbrev pub Follows : ExperimentState → ExperimentState → Type 0
Follows s t = (moves s t || state_beq s t) ≡ true

abbrev pub is_transition : Event → Bool
is_transition (transition s t) = true
is_transition _ = false

-- The events lead from a state to another one: the transitions among them are moves, and each starts
-- where the one before it has ended.
pub data Traced (s : ExperimentState) : List Event → ExperimentState → Type 0 where
  start : Traced s [] s
  beside :
      {es : List Event} {t : ExperimentState} (e : Event)
      → is_transition e ≡ false
      → Traced s es t
      → Traced s (es ++ (e ∷ [])) t
  moved :
      {es : List Event} {t u : ExperimentState}
      → Move t u
      → Traced s es t
      → Traced s (es ++ (transition t u ∷ [])) u

-- The events so far lead from the state to the present one.
abbrev pub IsTraced : ExperimentState → Recon → Type 0
IsTraced s r = Traced s r.events r.experiment.state

pub IsTraced-add_event :
    (s : ExperimentState) (e : Event) (r : Recon)
    → is_transition e ≡ false
    → IsTraced s r
    → IsTraced s (add_event e r)
unfolding add_event
IsTraced-add_event s e r aside trace = beside e aside trace

pub IsTraced-update_experiment_state :
    (s u : ExperimentState) (r : Recon)
    → Follows r.experiment.state u
    → IsTraced s r
    → IsTraced s (update_experiment_state u r)
unfolding update_experiment_state set_state add_event
IsTraced-update_experiment_state s u r follows trace = elim (Bool-cases (r.experiment.state == u)) [
  | inl same ↦ rw same trace
  | inr other ↦
      rw other (moved (move_of r.experiment.state u (ground (arith, follows, other))) trace)
]
