-- ===== src/WorldController/Verdict/Final.antt =====
-- The verdict on a node is final, beside the node controller
-- (internal-components/world-controller/main.go and
-- yass-operator/internal/controller/fs_node/fs_node_controller.go).
use yass_simulator.Base.{
  ◌||◌, ◌⊎◌, inl, inr, Bool-cases, String, ◌≡◌, refl, ap, ◌∙◌, Bool, true, false, Option, none,
  some, List, [], ◌∷◌, arith, string_eq,
}
use yass_simulator.Base.Int.{ℤ, pos, negsuc}
use yass_simulator.Operator.Phase.{FsNodePhase, is_terminal}
use yass_simulator.Operator.Node.{FsNode, NodeCluster, AllMatch, reconcile_node}
use yass_simulator.Operator.Node.Outcome.{phase-reconcile_node}
use yass_simulator.WorldController.Verdict.{
  Watched, Signals, coded, verdict_of_code, failed_or_coded, agent_exit_code, agent_verdict,
  apply_agent_phase, tick,
}

is_terminal-coded :
    (code : Option ℤ) (phase : FsNodePhase) → coded code ≡ some phase → is_terminal phase ≡ true
unfolding coded verdict_of_code
is_terminal-coded none phase h = cc
is_terminal-coded (some (pos n)) phase h = ground (arith, h)
is_terminal-coded (some (negsuc n)) phase h = ground (arith, h)

is_terminal-failed_or_coded :
    (failure fail : Option String) (code : Option ℤ) (phase : FsNodePhase)
    → failed_or_coded failure fail code ≡ some phase
    → is_terminal phase ≡ true
unfolding failed_or_coded
is_terminal-failed_or_coded (some text) fail code phase h = ground (arith, h)
is_terminal-failed_or_coded none (some text) code phase h = ground (arith, h)
is_terminal-failed_or_coded none none code phase h = is_terminal-coded code phase h

is_terminal-agent_verdict :
    (s : Signals) (phase : FsNodePhase) → agent_verdict s ≡ some phase → is_terminal phase ≡ true
unfolding agent_verdict
is_terminal-agent_verdict s phase h = ground (
  arith,
  h,
  is_terminal-failed_or_coded s.exit_failure s.exit_fail (agent_exit_code s.pod_containers) phase,
)

-- A node, and the flag `applied` of the world-controller that runs in its pod: a local variable of one
-- process, false where it starts.
pub record WatchedNode (H : Type 0) : Type 0 where
  pub node : FsNode H
  pub applied : Bool

-- A round of the world-controller, with whether the phase could be stored, or a call of the node
-- controller with the answers that it gets. The API server refuses an update of a node that was
-- changed since it was read, so each of them is one step. Where the pod was made anew or its container
-- restarted, another process of the world-controller starts.
pub data Step (H : Type 0) : Type 0 where
  restart : Step H
  verdict_round : Signals → Bool → Step H
  controller_call : NodeCluster H → Step H

is_restart : {H : Type 0} → Step H → Bool
is_restart restart = true
is_restart (verdict_round s stored) = false
is_restart (controller_call k) = false

unfoldable pub has_restart : {H : Type 0} → List (Step H) → Bool
unfolding is_restart
has_restart [] = false
has_restart (s ∷ ss) = is_restart s || has_restart ss

is_terminal-judged :
    (s : Signals) (decided : Option FsNodePhase) (stored : Bool) (w : Watched)
    → agent_verdict s ≡ decided
    → is_terminal w.phase ≡ true
    → is_terminal
        (elim decided as (λ x. Watched) [
          | none ↦ w
          | some phase ↦ apply_agent_phase phase stored w
        ]).phase
      ≡ true
unfolding apply_agent_phase
is_terminal-judged s none stored w same ended = ended
is_terminal-judged s (some phase) stored w same ended =
    ground (arith, is_terminal-agent_verdict s phase same, ended)

is_terminal-applied :
    (s : Signals) (stored : Bool) (w : Watched)
    → is_terminal w.phase ≡ true
    → is_terminal (tick s stored w).phase ≡ true
unfolding tick apply_agent_phase
is_terminal-applied s stored w ended = elim (Bool-cases w.applied) [
  | inl applied ↦ simp applied ended
  | inr new ↦ simp new (is_terminal-judged s (agent_verdict s) stored w refl ended)
]

module _ {H : Type 0} (all_match : AllMatch) where
  unfoldable pub stepped : Step H → WatchedNode H → WatchedNode H
  stepped (verdict_round s stored) n =
      let w = tick s stored (record { phase = n.node.phase; applied = n.applied }) in
      record { node = record (n.node) { phase = w.phase }; applied = w.applied }
  stepped restart n = record n { applied = false }
  stepped (controller_call k) n = record n { node = (reconcile_node k all_match n.node).1 }

  unfoldable pub stepped_all : List (Step H) → WatchedNode H → WatchedNode H
  unfolding stepped
  stepped_all [] n = n
  stepped_all (s ∷ ss) n = stepped_all ss (stepped s n)

  stepped_applied :
      (s : Step H) (n : WatchedNode H)
      → is_restart s ≡ false
      → n.applied ≡ true
      → is_terminal n.node.phase ≡ true
      → ((stepped s n).applied ≡ true) × ((stepped s n).node.phase ≡ n.node.phase)
  unfolding stepped tick is_restart
  stepped_applied restart n same applied ended = ground (arith, same)
  stepped_applied (verdict_round s stored) n same applied ended = rw applied (refl, refl)
  stepped_applied (controller_call k) n same applied ended =
      (applied, phase-reconcile_node k all_match n.node ended)

  stepped_all-applied :
      (ss : List (Step H)) (n : WatchedNode H)
      → has_restart ss ≡ false
      → n.applied ≡ true
      → is_terminal n.node.phase ≡ true
      → (stepped_all ss n).node.phase ≡ n.node.phase
  unfolding stepped_all has_restart
  stepped_all-applied [] n one applied ended = refl
  stepped_all-applied (s ∷ ss) n one applied ended =
      let (still, same) = stepped_applied s n (ground (arith, one)) applied ended in
      stepped_all-applied ss (stepped s n) (ground (arith, one)) still (ap is_terminal same ∙ ended)
      ∙ same

  is_terminal-stepped :
      (s : Step H) (n : WatchedNode H)
      → is_terminal n.node.phase ≡ true
      → is_terminal (stepped s n).node.phase ≡ true
  unfolding stepped
  is_terminal-stepped restart n ended = ended
  is_terminal-stepped (verdict_round s stored) n ended =
      is_terminal-applied s stored (record { phase = n.node.phase; applied = n.applied }) ended
  is_terminal-stepped (controller_call k) n ended =
      ap is_terminal (phase-reconcile_node k all_match n.node ended) ∙ ended

  is_terminal-stepped_all :
      (ss : List (Step H)) (n : WatchedNode H)
      → is_terminal n.node.phase ≡ true
      → is_terminal (stepped_all ss n).node.phase ≡ true
  unfolding stepped_all
  is_terminal-stepped_all [] n ended = ended
  is_terminal-stepped_all (s ∷ ss) n ended =
      is_terminal-stepped_all ss (stepped s n) (is_terminal-stepped s n ended)

  -- Once a round of a world-controller that has stored no verdict before has a verdict on the agent
  -- and can store it, the node stays in a terminal phase, whatever the world-controller and the
  -- node controller do afterwards, in any order and with any restarts of the world-controller; and
  -- it stays in the phase of this verdict, unless the world-controller starts anew, which may then
  -- store another verdict.
  pub stepped_all-agent_verdict :
      (s : Signals) (phase : FsNodePhase) (ss : List (Step H)) (n : WatchedNode H)
      → n.applied ≡ false
      → agent_verdict s ≡ some phase
      → let phase' = (stepped_all (verdict_round s true ∷ ss) n).node.phase in
        (is_terminal phase' ≡ true) × ((has_restart ss ≡ true) ⊎ (phase' ≡ phase))
  unfolding stepped_all stepped tick apply_agent_phase
  stepped_all-agent_verdict s phase ss n fresh decided =
      let n' = stepped (verdict_round s true) n in
      let given : (n'.applied ≡ true) × (n'.node.phase ≡ phase) =
        rw (fresh, decided) (refl, refl) in
      let ended = ap is_terminal given.1 ∙ is_terminal-agent_verdict s phase decided in
      (
        is_terminal-stepped_all ss n' ended,
        elim (Bool-cases (has_restart ss)) [
          | inl again ↦ inl again
          | inr one ↦ inr (stepped_all-applied ss n' one given.0 ended ∙ given.1)
        ],
      )
