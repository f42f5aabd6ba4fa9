-- ===== src/Operator/Node/Volumes.antt =====
-- A pod that cannot be built
-- (yass-operator/internal/controller/fs_node/fs_node_controller.go).
use yass_simulator.Base.{
  String, ◌≡◌, ◌≢◌, refl, sym, ap, ◌∙◌, Bool, true, false, Option, none, some, List, [], arith,
  ◌==◌, string_eq,
}
use yass_simulator.Base.Result.{err}
use yass_simulator.Operator.Experiment.{missing}
use yass_simulator.Operator.Node.{
  NodeCondition, FsNode, NodeCluster, AllMatch, put_condition, invalid_volume, with_node_type,
  update_node_condition, built_pod, create_or_update_fs_node_pod, judge_hardware, with_service,
  create_objects, reconcile_hardware, reconcile_node,
}
use yass_simulator.Operator.Node.Readiness.{
  all_hold, IsAllMatch, made, hardware_spec-with_node_type, label-with_node_type,
  update_hardware_spec-known, is_ready-made,
}

module _ {H : Type 0} (k : NodeCluster H) (all_match : AllMatch) where
  volumes-with_node_type : (n : FsNode H) → (with_node_type n).engine_volumes ≡ n.engine_volumes
  unfolding with_node_type
  volumes-with_node_type n = ground arith

  conditions-with_node_type : (n : FsNode H) → (with_node_type n).conditions ≡ n.conditions
  unfolding with_node_type
  conditions-with_node_type n = ground arith

  -- What a call leaves where the pod cannot be built.
  create_objects-invalid :
      (n : FsNode H) (name : String)
      → (n.experiment_label == "") ≡ false
      → k.get_pod ≡ err missing
      → invalid_volume n.engine_volumes ≡ some name
      → ((create_objects k all_match n).1.conditions
          ≡ put_condition
              (record {
                type = "experimentAssigned";
                status = true;
                reason = "experimentLabelFound";
                message = "experiment assigned";
              })
              n.conditions)
        × ((create_objects k all_match n).0 ≢ none)
  unfolding create_objects create_or_update_fs_node_pod built_pod with_service update_node_condition
  create_objects-invalid n name labelled no_pod invalid =
      rw (labelled, no_pod, invalid) (refl, λ e. cc)

  error-made :
      (n : FsNode H) (h : H)
      → n.hardware_spec ≡ some h
      → (reconcile_node k all_match n).0
        ≡ (create_objects k all_match (judge_hardware k all_match none (with_node_type n))).0
  unfolding reconcile_node reconcile_hardware
  error-made n h known =
      ap (λ (u : Bool × Option String × FsNode H). (reconcile_hardware k all_match u).0)
        (update_hardware_spec-known k all_match (with_node_type n) h
          (hardware_spec-with_node_type k all_match n ∙ known))

  -- A new node with an engine volume of another kind than ConfigMap or Secret is Ready behind a call that
  -- fails: no pod is created, and no condition says so.
  pub is_ready-invalid_volume :
      (n : FsNode H) (h : H) (name : String)
      → IsAllMatch all_match
      → n.hardware_spec ≡ some h
      → (n.experiment_label == "") ≡ false
      → n.conditions ≡ []
      → k.get_pod ≡ err missing
      → invalid_volume n.engine_volumes ≡ some name
      → ((reconcile_node k all_match n).1.is_ready ≡ true)
        × ((reconcile_node k all_match n).0 ≢ none)
  unfolding made judge_hardware update_node_condition put_condition all_hold
  is_ready-invalid_volume n h name law known labelled fresh no_pod invalid =
      let n' = judge_hardware k all_match none (with_node_type n) in
      let labelled' : (n'.experiment_label == "") ≡ false =
        ap (λ (l : String). l == "") (label-with_node_type k all_match n) ∙ labelled in
      let invalid' : invalid_volume n'.engine_volumes ≡ some name =
        ap invalid_volume (volumes-with_node_type n) ∙ invalid in
      let left = create_objects-invalid n' name labelled' no_pod invalid' in
      let hardware : NodeCondition = record {
        type = "hardwareSpec";
        status = true;
        reason = "hardwareAssigned";
        message = "";
      } in
      let label : NodeCondition = record {
        type = "experimentAssigned";
        status = true;
        reason = "experimentLabelFound";
        message = "experiment assigned";
      } in
      (
        is_ready-made k all_match n h known
            ∙ law (made k all_match n).conditions (λ c. c.status)
            ∙ ap (all_hold (λ c. c.status)) left.0
            ∙ ap
                (λ (cs : List NodeCondition).
                  all_hold (λ c. c.status) (put_condition label (put_condition hardware cs)))
                (conditions-with_node_type n ∙ fresh),
        λ none_left. left.1 (sym (error-made n h known) ∙ none_left),
      )
