-- ===== src/Tests/Nodes.antt =====
-- The theorems on yass-operator/internal/controller/fs_node, and on the verdict of
-- internal-components/world-controller/main.go, at concrete inputs.
use yass_simulator.Base.{
  All, ◌⊎◌, ℕ, ℕ, ◌≡◌, ◌≢◌, refl, true, false, none, some, [], ◌∷◌, string_eq,
}
use yass_simulator.Base.Result.{ok, err}
use yass_simulator.Operator.Phase.{is_terminal, mission_completed, pending}
use yass_simulator.Operator.Experiment.{missing}
use yass_simulator.Operator.Node.{
  pod_succeeded, pod_running, container_terminated, ContainerStatus, NodePod, pod_running,
  container_terminated, container_running, FsNode, NodeCluster, pod_verdict, are_ready, ended_well,
  reconcile_node, invalid_volume, reconcile_hardware, update_hardware_spec, with_node_type,
  status_settled, create_objects, judge_hardware, update_node_condition, with_service,
  create_or_update_fs_node_pod, create_or_update_fs_node_service, put_condition, update_for_pod,
}
use yass_simulator.Operator.Node.Readiness.{all_hold, is_ready-reconcile_node}
use yass_simulator.Operator.Node.Outcome.{phase-reconcile_node}
use yass_simulator.Base.Int.{pos}
use yass_simulator.WorldController.Verdict.{Signals, agent_verdict}
use yass_simulator.WorldController.Verdict.Final.{
  has_restart, verdict_round, controller_call, stepped_all, stepped_all-agent_verdict,
}
use yass_simulator.Operator.Node.Volumes.{is_ready-invalid_volume}

-- A pod whose engine is ready and whose agent has ended well.
abbrev pod : NodePod
pod = record {
  pod_phase = pod_running;
  init_containers = [];
  containers =
      record { name = "agent"; is_ready = false; container_state = container_terminated 0 }
      ∷ record { name = "engine"; is_ready = true; container_state = container_running }
      ∷ [];
}

-- Numbers stand for hardware.
abbrev with_pod : NodeCluster ℕ
with_pod = record {
  hardware_definition = λ name. err missing;
  update_node = none;
  get_pod = ok pod;
  create_pod = ok pod;
  last_pod = ok pod;
  get_service = none;
  create_service = none;
  is_already_exists = λ e. false;
  text_of = λ e. "";
}

abbrev without_pod : NodeCluster ℕ
without_pod = record with_pod { get_pod = err missing; last_pod = err missing }

abbrev new_node : FsNode ℕ
new_node = record {
  node_type = "";
  experiment_label = "demo";
  hardware_spec = some 1;
  hardware_spec_ref = "";
  engine_volumes = record { name = "data"; is_allowed = false } ∷ [];
  conditions = [];
  is_ready = false;
  phase = pending;
}

phase-reconcile_node_example :
    (reconcile_node without_pod
      (λ cs p. all_hold p cs)
      (record new_node { phase = mission_completed })).1.phase
    ≡ mission_completed
phase-reconcile_node_example =
    phase-reconcile_node without_pod (λ cs p. all_hold p cs)
      (record new_node { phase = mission_completed }) refl

is_ready-invalid_volume_example :
    ((reconcile_node without_pod (λ cs p. all_hold p cs) new_node).1.is_ready ≡ true)
    × ((reconcile_node without_pod (λ cs p. all_hold p cs) new_node).0 ≢ none)
unfolding invalid_volume
is_ready-invalid_volume_example =
    is_ready-invalid_volume without_pod (λ cs p. all_hold p cs) new_node 1 "data" (λ cs p. refl)
      refl refl refl refl refl

is_ready-reconcile_node_example :
    (pod.pod_phase ≡ pod_succeeded)
    ⊎ ((pod.pod_phase ≡ pod_running)
        × All
            (λ (c : ContainerStatus).
              (c.is_ready ≡ true)
              ⊎ ((c.name ≡ "agent") × (c.container_state ≡ container_terminated 0)))
            pod.containers)
unfolding reconcile_node reconcile_hardware update_hardware_spec with_node_type status_settled
    all_hold create_objects judge_hardware update_node_condition with_service
    create_or_update_fs_node_pod create_or_update_fs_node_service put_condition update_for_pod
    pod_verdict are_ready ended_well
is_ready-reconcile_node_example =
    is_ready-reconcile_node with_pod (λ cs p. all_hold p cs) new_node pod 1 (λ cs p. refl) refl refl
      refl refl

-- The agent has written its file, and the pod has failed since.
abbrev signals : Signals
signals = record {
  destroyed = false;
  exit_ok = some "done";
  exit_failure = none;
  exit_fail = none;
  pod_containers = some (record { name = "agent"; exit_code = some (pos 1) } ∷ []);
}

stepped_all-agent_verdict_example :
    let phase' =
      (stepped_all
        (λ cs p. all_hold p cs)
        (verdict_round signals true ∷ controller_call without_pod ∷ [])
        (record { node = new_node; applied = false })).node.phase in
    (is_terminal phase' ≡ true)
    × ((has_restart (controller_call without_pod ∷ []) ≡ true) ⊎ (phase' ≡ mission_completed))
unfolding agent_verdict
stepped_all-agent_verdict_example =
    stepped_all-agent_verdict (λ cs p. all_hold p cs) signals mission_completed
      (controller_call without_pod ∷ []) (record { node = new_node; applied = false }) refl refl
