-- ===== src/Operator/Node.antt =====
-- The node controller: `FsNodeReconciler` of
-- yass-operator/internal/controller/fs_node/fs_node_controller.go. One call of Reconcile, for a node
-- that is not being deleted, in a namespace that is not, behind the update of its finalizer, is a
-- function of the node and of the answers of the cluster. H stands for the hardware of a node.
pub mod Readiness
pub mod Outcome
pub mod Volumes
use Prim.Native.String.{◌++◌ as append}
use yass_simulator.Base.{
  ℕ, zero, String, Bool, true, false, ◌&&◌, ◌||◌, not, Option, none, some, List, [], ◌∷◌, ◌==◌,
  string_eq, if◌then◌else◌,
}
use yass_simulator.Base.Int.{ℤ, pos}
use yass_simulator.Base.Result.{Result, ok, err}
use yass_simulator.Operator.Phase.{
  FsNodePhase, pending, creating, running, phase_errored, is_terminal,
}
use yass_simulator.Operator.Experiment.{ApiError, missing, other}

pub data PodPhase : Type 0 where
  pod_unset pod_pending pod_running pod_succeeded pod_failed pod_unknown : PodPhase

-- The state of a container; a terminated one with its exit code.
pub data ContainerState : Type 0 where
  container_waiting container_running no_container : ContainerState
  container_terminated : ℕ → ContainerState

pub record ContainerStatus : Type 0 where
  pub name : String
  pub is_ready : Bool
  pub container_state : ContainerState

pub record NodePod : Type 0 where
  pub pod_phase : PodPhase
  pub init_containers : List ContainerStatus
  pub containers : List ContainerStatus

pub record NodeCondition : Type 0 where
  pub type : String
  pub status : Bool
  pub reason : String
  pub message : String

-- A volume of the engines: its name, and whether it is a ConfigMap or a Secret.
pub record EngineVolume : Type 0 where
  pub name : String
  pub is_allowed : Bool

pub record FsNode (H : Type 0) : Type 0 where
  pub node_type : String
  pub experiment_label : String
  pub hardware_spec : Option H
  pub hardware_spec_ref : String
  pub engine_volumes : List EngineVolume
  pub conditions : List NodeCondition
  pub is_ready : Bool
  pub phase : FsNodePhase

-- The answers to one call.
pub record NodeCluster (H : Type 0) : Type 0 where
  pub hardware_definition : String → Result ApiError (Option H)
  pub update_node : Option ApiError
  -- the Get of the pod, the pod that is created, and the Get of the pod at the end
  pub get_pod : Result ApiError NodePod
  pub create_pod : Result ApiError NodePod
  pub last_pod : Result ApiError NodePod
  pub get_service : Option ApiError
  pub create_service : Option ApiError
  -- AlreadyExists of apierrors
  pub is_already_exists : ApiError → Bool
  -- the text of an error
  pub text_of : ApiError → String

-- AllMatch of goutils.
abbrev pub AllMatch : Type 0
AllMatch = List NodeCondition → (NodeCondition → Bool) → Bool

abbrev pub agent_container_name : String
agent_container_name = "agent"

any_state : (ContainerState → Bool) → List ContainerStatus → Bool
any_state p [] = false
any_state p (c ∷ cs) = p c.container_state || any_state p cs

not_started : ContainerState → Bool
not_started container_waiting = true
not_started container_running = true
not_started _ = false

waits : ContainerState → Bool
waits container_waiting = true
waits _ = false

unfoldable pub phase_of_pod : PodPhase → NodePod → FsNodePhase
unfolding any_state not_started waits
phase_of_pod pod_running pod = running
phase_of_pod pod_failed pod = phase_errored
phase_of_pod pod_pending pod =
    if any_state not_started pod.init_containers || any_state waits pod.containers
    then creating
    else pending
phase_of_pod _ pod = pending

unfoldable pub compute_fs_node_phase : Result ApiError NodePod → FsNodePhase
compute_fs_node_phase (ok pod) = phase_of_pod pod.pod_phase pod
compute_fs_node_phase (err e) = pending

-- The agent may end well.
unfoldable pub ended_well : ContainerState → Bool
ended_well (container_terminated zero) = true
ended_well _ = false

unfoldable pub are_ready : List ContainerStatus → Bool
are_ready [] = true
are_ready (c ∷ cs) =
    let rest = are_ready cs in
    if c.is_ready || c.name == agent_container_name && ended_well c.container_state
    then rest
    else false

-- The status of the condition of a pod, and its reason.
unfoldable pub pod_verdict : NodePod → Bool × String
pod_verdict pod = elim pod.pod_phase [
  | pod_succeeded ↦ (true, "Succeeded")
  | pod_running ↦ if are_ready pod.containers then (true, "Running") else (false, "RunningNotReady")
  | pod_pending ↦ (false, "Pending")
  | pod_failed ↦ (false, "Failed")
  | pod_unknown ↦ (false, "Unknown")
  | pod_unset ↦ (false, "")
]

-- The first condition of the type is rewritten, or a new one is put behind them.
unfoldable pub put_condition : NodeCondition → List NodeCondition → List NodeCondition
put_condition new [] = new ∷ []
put_condition new (c ∷ cs) =
    let rest = put_condition new cs in if c.type == new.type then new ∷ cs else c ∷ rest

-- The first volume that is not allowed.
unfoldable pub invalid_volume : List EngineVolume → Option String
invalid_volume [] = none
invalid_volume (v ∷ vs) = let rest = invalid_volume vs in if v.is_allowed then rest else some v.name

module _ {H : Type 0} where
  -- A node without a type is a satellite.
  unfoldable pub with_node_type : FsNode H → FsNode H
  with_node_type n = if n.node_type == "" then record n { node_type = "satellite" } else n

  unfoldable pub update_node_condition : String → String → String → Bool → FsNode H → FsNode H
  update_node_condition ctype message reason status n = record n {
    conditions =
        put_condition (record { type = ctype; status = status; reason = reason; message = message })
          n.conditions;
  }

  unfoldable pub update_for_pod : NodePod → FsNode H → FsNode H
  update_for_pod pod n =
      let (status, reason) = pod_verdict pod in update_node_condition "fsNodePod" "" reason status n

  unfoldable pub update_for_error : String → String → FsNode H → FsNode H
  update_for_error ctype text n = update_node_condition ctype text "error" false n

module _ {H : Type 0} (k : NodeCluster H) (all_match : AllMatch) where
  -- Behind the Create of the pod.
  unfoldable pub created_pod : Result ApiError NodePod → FsNode H → Option ApiError × FsNode H
  created_pod (ok pod) n = (none, update_for_pod pod n)
  created_pod (err e) n =
      if k.is_already_exists e
      then (
        none,
        update_for_pod (record { pod_phase = pod_unset; init_containers = []; containers = [] }) n,
      )
      else (some e, update_for_error "fsNodePod" (k.text_of e) n)

  -- With the volume that is not allowed, if there is one.
  unfoldable pub built_pod : Option String → FsNode H → Option ApiError × FsNode H
  built_pod (some name) n = (
    some (other (append "invalid volume " (append name ", allowed ConfigMap or Secret type only"))),
    n,
  )
  built_pod none n = created_pod k.create_pod n

  unfoldable pub create_or_update_fs_node_pod :
      Result ApiError NodePod → FsNode H → Option ApiError × FsNode H
  create_or_update_fs_node_pod (ok pod) n = (none, update_for_pod pod n)
  create_or_update_fs_node_pod (err (other text)) n =
      (some (other text), update_for_error "fsNodePod" (k.text_of (other text)) n)
  create_or_update_fs_node_pod (err missing) n = built_pod (invalid_volume n.engine_volumes) n

  unfoldable pub service_made : FsNode H → FsNode H
  service_made n = update_node_condition "fsNodeService" "" "ok" true n

  unfoldable pub created_service : Option ApiError → FsNode H → Option ApiError × FsNode H
  unfolding service_made
  created_service none n = (none, service_made n)
  created_service (some e) n =
      if k.is_already_exists e
      then (none, service_made n)
      else (some e, update_for_error "fsNodeService" (k.text_of e) n)

  unfoldable pub create_or_update_fs_node_service :
      Option ApiError → FsNode H → Option ApiError × FsNode H
  unfolding service_made created_service
  create_or_update_fs_node_service none n = (none, service_made n)
  create_or_update_fs_node_service (some missing) n = created_service k.create_service n
  create_or_update_fs_node_service (some (other text)) n =
      (some (other text), update_for_error "fsNodeService" (k.text_of (other text)) n)

  -- updateHardwareSpec: whether the node is to be reconciled again, the error, and the node.
  unfoldable pub fetched_hardware :
      Result ApiError (Option H) → FsNode H → Bool × Option String × FsNode H
  fetched_hardware (ok none) n = (false, none, n)
  fetched_hardware (ok (some spec)) n = elim k.update_node [
    | none ↦ (true, none, record n { hardware_spec = some spec })
    | some e ↦ (false, some (k.text_of e), record n { hardware_spec = some spec })
  ]
  fetched_hardware (err missing) n =
      (false, some (append "HardwareSpecRef '" (append n.hardware_spec_ref "' not found")), n)
  fetched_hardware (err (other text)) n =
      (false, some (append "cannot fetch HardwareSpecRef: " (k.text_of (other text))), n)

  unfoldable pub update_hardware_spec : FsNode H → Bool × Option String × FsNode H
  update_hardware_spec n = elim n.hardware_spec [
    | some spec ↦ (false, none, n)
    | none ↦
        if n.hardware_spec_ref == ""
        then (false, none, n)
        else fetched_hardware (k.hardware_definition n.hardware_spec_ref) n
  ]

  unfoldable pub judge_hardware : Option String → FsNode H → FsNode H
  judge_hardware none n = update_node_condition "hardwareSpec" "" "hardwareAssigned" true n
  judge_hardware (some text) n =
      update_node_condition "hardwareSpec" text "hardwareNotAssigned" false n

  -- The pod and then, without an error, the service.
  unfoldable pub with_service : Option ApiError × FsNode H → Option ApiError × FsNode H
  with_service (some e, n) = (some e, n)
  with_service (none, n) = create_or_update_fs_node_service k.get_service n

  unfoldable pub create_objects : FsNode H → Option ApiError × FsNode H
  create_objects n =
      if n.experiment_label == ""
      then (
        none,
        update_node_condition "experimentAssigned" "no yass-experiment label found"
            "noExperimentLabel" false n,
      )
      else (let n' =
            update_node_condition "experimentAssigned" "experiment assigned" "experimentLabelFound"
              true n in
          with_service (create_or_update_fs_node_pod k.get_pod n'))

  -- The deferred update of the status.
  unfoldable pub status_settled : FsNode H → FsNode H
  status_settled n = record n {
    is_ready = all_match n.conditions (λ c. c.status);
    phase = if is_terminal n.phase then n.phase else compute_fs_node_phase k.last_pod;
  }

  unfoldable pub reconcile_hardware : Bool × Option String × FsNode H → Option ApiError × FsNode H
  reconcile_hardware (true, e, n) = (none, n)
  reconcile_hardware (false, e, n) =
      let (error, n') = create_objects (judge_hardware e n) in (error, status_settled n')

  unfoldable pub reconcile_node : FsNode H → Option ApiError × FsNode H
  reconcile_node n = reconcile_hardware (update_hardware_spec (with_node_type n))
