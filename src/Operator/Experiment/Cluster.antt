-- ===== src/Operator/Experiment/Cluster.antt =====
-- The cluster, as one call of Reconcile of
-- yass-operator/internal/controller/experiment/experiment_controller.go sees it: its answers to the
-- requests of the call.
use yass_simulator.Base.{ℕ, String, Bool, Option, List}
use yass_simulator.Base.Int.{ℤ}
use yass_simulator.Base.Result.{Result}
use yass_simulator.Operator.Phase.{FsNodePhase}
use yass_simulator.Operator.Experiment.{ApiError, Condition, Object}

-- What a POST to the experiment executor comes to: the name is not in DNS yet, another error, or the
-- status of a response.
pub data Reply : Type 0 where
  no_such_host post_failed : Reply
  responded : ℕ → Reply

-- The state of a container and of a pod, as far as they are read.
pub record PodCondition : Type 0 where
  pub pod_scheduled : Bool
  pub is_false : Bool
  pub unschedulable : Bool

pub record Pod : Type 0 where
  pub is_pending : Bool
  pub pod_conditions : List PodCondition
  pub restart_counts : List ℤ

-- Each object stands for the one that the label or the name of the experiment selects. An error that
-- is no ApiError has only a text.
pub record Cluster : Type 0 where
  -- the names of the behaviours of a definition, and of the nodes of a layout
  pub definition : String → Result ApiError (List String)
  pub layout : String → Result ApiError (List String)
  -- by the template: the Get of the component, and its creation from the template
  pub get_component : String → Result ApiError Object
  pub create_component : String → Result ApiError Object
  pub node : String → Result ApiError Object
  pub create_node : String → Option ApiError
  pub pods : Result ApiError (List Pod)
  pub all_pods : Result ApiError (List Pod)
  pub phases : Result ApiError (List FsNodePhase)
  pub post : String → Reply
  -- the Update of the experiment
  pub update_answer : Option ApiError
  -- the Lists of nodes, stateful sets and deployments, and the Delete of one object
  pub workloads : List (Result ApiError (List String))
  pub delete_object : String → Option ApiError

-- strconv.Itoa, strconv.Atoi, RFC 3339 with time.Parse, and AllMatch of goutils.
pub record Library : Type 0 where
  pub itoa : ℤ → String
  pub atoi : String → Option ℤ
  pub format_time : ℤ → String
  pub parse_time : String → Option ℤ
  pub all_match : List Condition → (Condition → Bool) → Bool
