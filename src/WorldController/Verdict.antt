-- ===== src/WorldController/Verdict.antt =====
-- The outcome of the agent: `agentVerdict`, `agentExitCode`, `applyAgentPhase` and the task that calls
-- them in internal-components/world-controller/main.go.
pub mod Final
use yass_simulator.Base.{
  ℕ, String, Bool, true, false, ◌&&◌, ◌||◌, not, Option, none, some, List, [], ◌∷◌, ◌==◌, string_eq,
  nat_beq, if◌then◌else◌,
}
use yass_simulator.Base.Int.{ℤ, pos, negsuc}
use yass_simulator.Operator.Phase.{FsNodePhase, mission_completed, mission_fail, phase_errored}

-- A container of the own pod: its name, and its exit code once it has terminated.
pub record AgentContainer : Type 0 where
  pub name : String
  pub exit_code : Option ℤ

-- What one call reads: the flag of Destroy, the three files, trimmed, and the containers of the pod if
-- it can be read.
pub record Signals : Type 0 where
  pub destroyed : Bool
  pub exit_ok : Option String
  pub exit_failure : Option String
  pub exit_fail : Option String
  pub pod_containers : Option (List AgentContainer)

abbrev pub agent_container : String
agent_container = "agent"

-- The loop over the containers: the first one of the agent that has terminated.
unfoldable pub exit_code_in : List AgentContainer → Option ℤ
exit_code_in [] = none
exit_code_in (c ∷ cs) =
    let rest = exit_code_in cs in
    if c.name == agent_container
    then elim c.exit_code [ none ↦ rest | some code ↦ some code ]
    else rest

unfoldable pub agent_exit_code : Option (List AgentContainer) → Option ℤ
unfolding exit_code_in
agent_exit_code none = none
agent_exit_code (some cs) = exit_code_in cs

unfoldable pub verdict_of_code : ℤ → FsNodePhase
verdict_of_code (pos n) = if nat_beq n 0 then mission_completed else phase_errored
verdict_of_code (negsuc n) = phase_errored

unfoldable pub coded : Option ℤ → Option FsNodePhase
coded none = none
coded (some code) = some (verdict_of_code code)

-- The files of a failure, and then the exit code.
unfoldable pub failed_or_coded : Option String → Option String → Option ℤ → Option FsNodePhase
failed_or_coded (some text) fail code = some mission_fail
failed_or_coded none (some text) code = some mission_fail
failed_or_coded none none code = coded code

-- None is no verdict yet.
unfoldable pub agent_verdict : Signals → Option FsNodePhase
agent_verdict s =
    let others = failed_or_coded s.exit_failure s.exit_fail (agent_exit_code s.pod_containers) in
    if s.destroyed
    then some mission_completed
    else elim s.exit_ok [ some text ↦ some mission_completed | none ↦ others ]

-- The phase of the node, and the local variable `applied` of one process of the world-controller:
-- whether this process has stored a verdict.
pub record Watched : Type 0 where
  pub phase : FsNodePhase
  pub applied : Bool

-- applyAgentPhase, with whether the phase could be stored.
unfoldable pub apply_agent_phase : FsNodePhase → Bool → Watched → Watched
apply_agent_phase phase stored w = if stored then record { phase = phase; applied = true } else w

-- One round of the periodic task.
unfoldable pub tick : Signals → Bool → Watched → Watched
tick s stored w =
    if w.applied
    then w
    else elim (agent_verdict s) [ none ↦ w | some phase ↦ apply_agent_phase phase stored w ]
