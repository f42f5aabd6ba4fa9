-- ===== src/Operator/Node/Readiness.antt =====
-- What the status of a node says about its pod
-- (yass-operator/internal/controller/fs_node/fs_node_controller.go).
use yass_simulator.Base.{
  String, ◌≡◌, refl, sym, ap, ◌∙◌, Bool, true, false, ◌&&◌, Option, none, some, List, [], ◌∷◌, zero,
  suc, ◌⊎◌, All, arith, ◌==◌, string_eq, string_beq_iff, if◌then◌else◌, Bool-cases, inl, inr,
}
use yass_simulator.Base.Result.{ok}
use yass_simulator.Operator.Experiment.{ApiError, missing, other}
use yass_simulator.Operator.Node.{
  PodPhase, pod_unset, pod_pending, pod_running, pod_succeeded, pod_failed, pod_unknown,
  ContainerState, container_waiting, container_running, no_container, container_terminated,
  ContainerStatus, ended_well, are_ready, NodePod, NodeCondition, FsNode, NodeCluster, AllMatch,
  pod_verdict, put_condition, with_node_type, update_node_condition, update_for_pod,
  update_for_error, created_service, service_made, create_or_update_fs_node_pod,
  create_or_update_fs_node_service, update_hardware_spec, fetched_hardware, judge_hardware,
  with_service, create_objects, status_settled, reconcile_hardware, reconcile_node,
}

unfoldable pub all_hold : (NodeCondition → Bool) → List NodeCondition → Bool
all_hold p [] = true
all_hold p (c ∷ cs) = p c && all_hold p cs

-- AllMatch of goutils asks every element.
abbrev pub IsAllMatch : AllMatch → Type 0
IsAllMatch all_match =
    (cs : List NodeCondition) (p : NodeCondition → Bool) → all_match cs p ≡ all_hold p cs

-- The status of the first condition of a type.
unfoldable pub status_of : String → List NodeCondition → Option Bool
status_of type [] = none
status_of type (c ∷ cs) = if c.type == type then some c.status else status_of type cs

status_of-put_condition :
    (type : String) (new : NodeCondition) (cs : List NodeCondition)
    → status_of type (put_condition new cs)
      ≡ (if new.type == type then some new.status else status_of type cs)
unfolding status_of put_condition
status_of-put_condition type new [] = refl
status_of-put_condition type new (c ∷ cs) = ground (
  arith,
  string_beq_iff c.type new.type,
  string_beq_iff c.type type,
  string_beq_iff new.type type,
  status_of-put_condition type new cs,
)

status_of-all_hold :
    (type : String) (cs : List NodeCondition) (b : Bool)
    → all_hold (λ c. c.status) cs ≡ true
    → status_of type cs ≡ some b
    → b ≡ true
unfolding status_of all_hold
status_of-all_hold type [] b all_true found = cc
status_of-all_hold type (c ∷ cs) b all_true found =
    ground (arith, all_true, found, status_of-all_hold type cs b)

-- Ready, or the agent ended with exit code 0.
abbrev IsUp : ContainerStatus → Type 0
IsUp c = (c.is_ready ≡ true) ⊎ ((c.name ≡ "agent") × (c.container_state ≡ container_terminated 0))

ended_well-true : (c : ContainerState) → ended_well c ≡ true → c ≡ container_terminated 0
unfolding ended_well
ended_well-true (container_terminated zero) h = refl
ended_well-true (container_terminated (suc n)) h = cc
ended_well-true container_waiting h = cc
ended_well-true container_running h = cc
ended_well-true no_container h = cc

are_ready-true : (cs : List ContainerStatus) → are_ready cs ≡ true → All IsUp cs
unfolding are_ready
are_ready-true [] h = tt
are_ready-true (c ∷ cs) h = elim (Bool-cases c.is_ready) [
  | inl up ↦ (inl up, are_ready-true cs (ground (arith, up, h)))
  | inr down ↦ (
    inr (
      (string_beq_iff c.name "agent").0 (ground (arith, down, h)),
      ended_well-true c.container_state (ground (arith, down, h)),
    ),
    are_ready-true cs (ground (arith, down, h)),
  )
]

pod_verdict-true :
    (phase : PodPhase) (pod : NodePod)
    → pod.pod_phase ≡ phase
    → (pod_verdict pod).0 ≡ true
    → (pod.pod_phase ≡ pod_succeeded) ⊎ ((pod.pod_phase ≡ pod_running) × All IsUp pod.containers)
unfolding pod_verdict
pod_verdict-true pod_succeeded pod same h = inl same
pod_verdict-true pod_running pod same h =
    inr (same, are_ready-true pod.containers (ground (arith, same, h)))
pod_verdict-true pod_pending pod same h = ground (arith, same, h)
pod_verdict-true pod_failed pod same h = ground (arith, same, h)
pod_verdict-true pod_unknown pod same h = ground (arith, same, h)
pod_verdict-true pod_unset pod same h = ground (arith, same, h)

module _ {H : Type 0} (k : NodeCluster H) (all_match : AllMatch) where
  status_of-created_service :
      (answer : Option ApiError) (n : FsNode H)
      → status_of "fsNodePod" (created_service k all_match answer n).1.conditions
        ≡ status_of "fsNodePod" n.conditions
  unfolding created_service service_made update_node_condition update_for_error
  status_of-created_service none n = status_of-put_condition "fsNodePod" _ n.conditions
  status_of-created_service (some e) n = elim (Bool-cases (k.is_already_exists e)) [
    | inl exists ↦ rw exists (status_of-put_condition "fsNodePod" _ n.conditions)
    | inr failed ↦ rw failed (status_of-put_condition "fsNodePod" _ n.conditions)
  ]

  status_of-service :
      (answer : Option ApiError) (n : FsNode H)
      → status_of "fsNodePod" (create_or_update_fs_node_service k all_match answer n).1.conditions
        ≡ status_of "fsNodePod" n.conditions
  unfolding create_or_update_fs_node_service service_made update_node_condition update_for_error
  status_of-service none n = status_of-put_condition "fsNodePod" _ n.conditions
  status_of-service (some missing) n = status_of-created_service k.create_service n
  status_of-service (some (other text)) n = status_of-put_condition "fsNodePod" _ n.conditions

  status_of-create_objects :
      (n : FsNode H) (pod : NodePod)
      → (n.experiment_label == "") ≡ false
      → k.get_pod ≡ ok pod
      → status_of "fsNodePod" (create_objects k all_match n).1.conditions ≡ some (pod_verdict pod).0
  unfolding create_objects create_or_update_fs_node_pod update_for_pod with_service put_condition
      status_of update_node_condition create_or_update_fs_node_service
  status_of-create_objects n pod labelled found =
      let n' =
        update_node_condition "experimentAssigned" "experiment assigned" "experimentLabelFound" true
          n in
      let new : NodeCondition = record {
        type = "fsNodePod";
        status = (pod_verdict pod).0;
        reason = (pod_verdict pod).1;
        message = "";
      } in
      rw (labelled, found)
        (status_of-service k.get_service (update_for_pod pod n')
          ∙ status_of-put_condition "fsNodePod" new n'.conditions)

  pub hardware_spec-with_node_type :
      (n : FsNode H) → (with_node_type n).hardware_spec ≡ n.hardware_spec
  unfolding with_node_type
  hardware_spec-with_node_type n = ground arith

  pub label-with_node_type :
      (n : FsNode H) → (with_node_type n).experiment_label ≡ n.experiment_label
  unfolding with_node_type
  label-with_node_type n = ground arith

  pub update_hardware_spec-known :
      (n : FsNode H) (h : H)
      → n.hardware_spec ≡ some h
      → update_hardware_spec k all_match n ≡ (false, none, n)
  unfolding update_hardware_spec
  update_hardware_spec-known n h known =
      ap
        (λ (o : Option H). elim o [
          | some spec ↦ (false, none, n)
          | none ↦
              if n.hardware_spec_ref == ""
              then (false, none, n)
              else fetched_hardware k all_match (k.hardware_definition n.hardware_spec_ref) n
        ])
        known

  -- The node behind the creation of its objects, where it has its hardware.
  unfoldable pub made : FsNode H → FsNode H
  made n = (create_objects k all_match (judge_hardware k all_match none (with_node_type n))).1

  pub is_ready-made :
      (n : FsNode H) (h : H)
      → n.hardware_spec ≡ some h
      → (reconcile_node k all_match n).1.is_ready ≡ all_match (made n).conditions (λ c. c.status)
  unfolding reconcile_node reconcile_hardware status_settled made with_node_type
  is_ready-made n h known =
      ap (λ (u : Bool × Option String × FsNode H). (reconcile_hardware k all_match u).1.is_ready)
        (update_hardware_spec-known (with_node_type n) h (hardware_spec-with_node_type n ∙ known))

  is_ready-conditions :
      (n : FsNode H) (pod : NodePod) (h : H)
      → IsAllMatch all_match
      → n.hardware_spec ≡ some h
      → (n.experiment_label == "") ≡ false
      → k.get_pod ≡ ok pod
      → (reconcile_node k all_match n).1.is_ready ≡ true
      → (pod_verdict pod).0 ≡ true
  unfolding made judge_hardware update_node_condition
  is_ready-conditions n pod h law known labelled found is_ready =
      let n' = judge_hardware k all_match none (with_node_type n) in
      let labelled' : (n'.experiment_label == "") ≡ false =
        ap (λ (l : String). l == "") (label-with_node_type n) ∙ labelled in
      status_of-all_hold "fsNodePod" (made n).conditions (pod_verdict pod).0
        (sym (law (made n).conditions (λ c. c.status)) ∙ sym (is_ready-made n h known) ∙ is_ready)
        (status_of-create_objects n' pod labelled' found)

  -- A node that has its hardware and is assigned to an experiment, and whose pod is there, is Ready
  -- after a call of Reconcile only if the pod has succeeded, or runs with every container ready,
  -- where the agent may also have ended with exit code 0: AllMatch is to ask every condition.
  pub is_ready-reconcile_node :
      (n : FsNode H) (pod : NodePod) (h : H)
      → IsAllMatch all_match
      → n.hardware_spec ≡ some h
      → (n.experiment_label == "") ≡ false
      → k.get_pod ≡ ok pod
      → (reconcile_node k all_match n).1.is_ready ≡ true
      → (pod.pod_phase ≡ pod_succeeded)
        ⊎ ((pod.pod_phase ≡ pod_running)
            × All
                (λ (c : ContainerStatus).
                  (c.is_ready ≡ true)
                  ⊎ ((c.name ≡ "agent") × (c.container_state ≡ container_terminated 0)))
                pod.containers)
  is_ready-reconcile_node n pod h law known labelled found is_ready =
      pod_verdict-true pod.pod_phase pod refl
        (is_ready-conditions n pod h law known labelled found is_ready)
