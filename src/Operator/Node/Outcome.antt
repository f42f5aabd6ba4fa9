-- ===== src/Operator/Node/Outcome.antt =====
-- The outcome of a node is not changed again
-- (yass-operator/internal/controller/fs_node/fs_node_controller.go).
use yass_simulator.Base.{
  String, ◌≡◌, refl, ap, ◌∙◌, Bool, true, false, Option, none, some, arith, string_eq,
}
use yass_simulator.Base.Result.{Result, ok, err}
use yass_simulator.Operator.Phase.{is_terminal}
use yass_simulator.Operator.Experiment.{ApiError, missing, other}
use yass_simulator.Operator.Node.{
  NodePod, FsNode, NodeCluster, AllMatch, invalid_volume, with_node_type, update_node_condition,
  update_for_pod, update_for_error, created_pod, built_pod, created_service, service_made,
  create_or_update_fs_node_pod, create_or_update_fs_node_service, update_hardware_spec,
  fetched_hardware, judge_hardware, with_service, create_objects, status_settled,
  reconcile_hardware, reconcile_node,
}

module _ {H : Type 0} (k : NodeCluster H) (all_match : AllMatch) where
  phase-judge_hardware :
      (e : Option String) (n : FsNode H) → (judge_hardware k all_match e n).phase ≡ n.phase
  unfolding judge_hardware update_node_condition
  phase-judge_hardware none n = refl
  phase-judge_hardware (some text) n = refl

  phase-created_service :
      (answer : Option ApiError) (n : FsNode H)
      → (created_service k all_match answer n).1.phase ≡ n.phase
  unfolding created_service service_made update_node_condition update_for_error
  phase-created_service none n = refl
  phase-created_service (some e) n = ground arith

  phase-service :
      (answer : Option ApiError) (n : FsNode H)
      → (create_or_update_fs_node_service k all_match answer n).1.phase ≡ n.phase
  unfolding create_or_update_fs_node_service service_made update_node_condition update_for_error
  phase-service none n = refl
  phase-service (some missing) n = phase-created_service k.create_service n
  phase-service (some (other text)) n = refl

  phase-created_pod :
      (answer : Result ApiError NodePod) (n : FsNode H)
      → (created_pod k all_match answer n).1.phase ≡ n.phase
  unfolding created_pod update_for_pod update_node_condition update_for_error
  phase-created_pod (ok pod) n = refl
  phase-created_pod (err e) n = ground arith

  phase-built_pod :
      (volume : Option String) (n : FsNode H) → (built_pod k all_match volume n).1.phase ≡ n.phase
  unfolding built_pod
  phase-built_pod none n = phase-created_pod k.create_pod n
  phase-built_pod (some name) n = refl

  phase-pod :
      (answer : Result ApiError NodePod) (n : FsNode H)
      → (create_or_update_fs_node_pod k all_match answer n).1.phase ≡ n.phase
  unfolding create_or_update_fs_node_pod update_for_pod update_node_condition update_for_error
  phase-pod (ok pod) n = refl
  phase-pod (err (other text)) n = refl
  phase-pod (err missing) n = phase-built_pod (invalid_volume n.engine_volumes) n

  phase-with_service :
      (made : Option ApiError × FsNode H) → (with_service k all_match made).1.phase ≡ made.1.phase
  unfolding with_service
  phase-with_service (none, n) = phase-service k.get_service n
  phase-with_service (some e, n) = refl

  phase-create_objects : (n : FsNode H) → (create_objects k all_match n).1.phase ≡ n.phase
  unfolding create_objects update_node_condition
  phase-create_objects n =
      let n' =
        update_node_condition "experimentAssigned" "experiment assigned" "experimentLabelFound" true
          n in
      ground (
        arith,
        phase-with_service (create_or_update_fs_node_pod k all_match k.get_pod n'),
        phase-pod k.get_pod n',
      )

  phase-fetched_hardware :
      (answer : Result ApiError (Option H)) (n : FsNode H)
      → (fetched_hardware k all_match answer n).2.phase ≡ n.phase
  unfolding fetched_hardware
  phase-fetched_hardware (ok none) n = refl
  phase-fetched_hardware (ok (some spec)) n = ground arith
  phase-fetched_hardware (err missing) n = refl
  phase-fetched_hardware (err (other text)) n = refl

  phase-update_hardware_spec :
      (n : FsNode H) → (update_hardware_spec k all_match n).2.phase ≡ n.phase
  unfolding update_hardware_spec
  phase-update_hardware_spec n =
      ground (arith, phase-fetched_hardware (k.hardware_definition n.hardware_spec_ref) n)

  phase-reconcile_hardware :
      (again : Bool) (e : Option String) (n : FsNode H)
      → is_terminal n.phase ≡ true
      → (reconcile_hardware k all_match (again, e, n)).1.phase ≡ n.phase
  unfolding reconcile_hardware status_settled
  phase-reconcile_hardware true e n ended = refl
  phase-reconcile_hardware false e n ended = ground (
    arith,
    ended,
    phase-create_objects (judge_hardware k all_match e n),
    phase-judge_hardware e n,
  )

  phase-with_node_type : (n : FsNode H) → (with_node_type n).phase ≡ n.phase
  unfolding with_node_type
  phase-with_node_type n = ground arith

  -- The outcome of a node is kept: a node that has completed its mission, failed it or is Errored has the
  -- same phase after every call of Reconcile, whatever has become of its pod.
  pub phase-reconcile_node :
      (n : FsNode H) → is_terminal n.phase ≡ true → (reconcile_node k all_match n).1.phase ≡ n.phase
  unfolding reconcile_node
  phase-reconcile_node n ended =
      let u = update_hardware_spec k all_match (with_node_type n) in
      let kept : u.2.phase ≡ n.phase =
        phase-update_hardware_spec (with_node_type n) ∙ phase-with_node_type n in
      phase-reconcile_hardware u.0 u.1 u.2 (ap is_terminal kept ∙ ended) ∙ kept
