-- ===== src/MetricsBridge/Bridge.antt =====
-- What the bridge does with the file events: `onCrudEvent` and `Sweep` of
-- internal-components/metrics-bridge/internal/bridge/bridge.go, over the tracker and the address map.
pub mod Counted
use yass_simulator.Base.{
  ℕ, String, Bool, true, false, ◌&&◌, ◌||◌, not, Option, none, some, List, [], ◌∷◌, ◌++◌, ◌==◌,
  string_eq, if◌then◌else◌,
}
use yass_simulator.Base.Int.{ℤ, pos, ◌-ℤ◌, ltb_ℤ}
use yass_simulator.Base.Map.{Map, lookup}
use yass_simulator.MetricsBridge.Tracker.{
  PendingPut, Tracker, record_put, Match, delivered, duplicate, unknown, match_receive,
  evict_expired,
}
use yass_simulator.MetricsBridge.IpMap.{IpMap, node_type_of}

-- The types that the code compares with, and any other.
pub data CrudType : Type 0 where
  put received deleted other_type : CrudType

-- A decoded event, with the time of its arrival where it states none.
pub record FileEvent : Type 0 where
  pub type : CrudType
  pub name : String
  pub fs_node_name : String
  pub md5_sum : String
  pub content_size_bytes : ℤ
  pub when : ℤ

-- What is counted and pushed: a duration is in nanoseconds. `crud` has the source and the duration of a
-- receipt that was joined with its PUT.
pub data BridgeEffect : Type 0 where
  file_produced file_received_unjoined : String → ℤ → BridgeEffect
  file_received : String → String → ℤ → BridgeEffect
  file_delivered : String → String → Bool → ℤ → BridgeEffect
  file_deleted : String → BridgeEffect
  crud : FileEvent → Option (String × ℤ) → BridgeEffect
  file_lost : String → String → ℕ → BridgeEffect

-- TargetGSByFsNode of the configuration, and the address map.
pub record Targets : Type 0 where
  pub target_gs_by_fs_node : Map String String
  pub ips : IpMap

-- An empty text where there is none.
unfoldable pub target_gs_for : String → Map String String → String
target_gs_for satellite m = elim (lookup satellite m) [ none ↦ "" | some target ↦ target ]

-- A delivery to the ground, by the configured target or by the type of the receiver.
unfoldable pub is_target : String → String → Targets → Bool
is_target source receiver targets =
    let target = target_gs_for source targets.target_gs_by_fs_node in
    if target == ""
    then node_type_of receiver targets.ips == "groundStation"
    else target == receiver

-- The time from the PUT to the receipt, 0 if the clocks make it negative.
unfoldable pub delivery_time : ℤ → ℤ → ℤ
delivery_time received_at produced_at =
    let d = received_at -ℤ produced_at in if ltb_ℤ d (pos 0) then pos 0 else d

-- With the answer of MatchReceive.
unfoldable pub receipt_effects : Match → FileEvent → Targets → List BridgeEffect
receipt_effects duplicate e targets = crud e none ∷ []
receipt_effects unknown e targets =
    file_received_unjoined e.fs_node_name e.content_size_bytes ∷ crud e none ∷ []
receipt_effects (delivered p) e targets =
    let d = delivery_time e.when p.when in
    file_received e.fs_node_name p.source e.content_size_bytes
    ∷ file_delivered p.source e.fs_node_name (is_target p.source e.fs_node_name targets) d
    ∷ crud e (some (p.source, d))
    ∷ []

-- With the type of the event.
unfoldable pub on_crud_type : Targets → CrudType → FileEvent → Tracker → List BridgeEffect × Tracker
on_crud_type targets put e t = (
  file_produced e.fs_node_name e.content_size_bytes ∷ crud e none ∷ [],
  record_put e.md5_sum e.name e.fs_node_name e.content_size_bytes e.when t,
)
on_crud_type targets received e t =
    let (answer, t') = match_receive e.md5_sum e.name e.fs_node_name t in
    (receipt_effects answer e targets, t')
on_crud_type targets deleted e t = (file_deleted e.fs_node_name ∷ crud e none ∷ [], t)
on_crud_type targets other_type e t = (crud e none ∷ [], t)

abbrev pub on_crud_event : Targets → FileEvent → Tracker → List BridgeEffect × Tracker
on_crud_event targets e t = on_crud_type targets e.type e t

-- The loop over what was lost.
unfoldable pub lost_effects : Targets → Map String ℕ → List BridgeEffect
lost_effects targets [] = []
lost_effects targets ((source, n) ∷ others) =
    file_lost source (target_gs_for source targets.target_gs_by_fs_node) n
    ∷ lost_effects targets others

unfoldable pub sweep_bridge : Targets → ℤ → Tracker → List BridgeEffect × Tracker
sweep_bridge targets now t = let (lost, t') = evict_expired now t in (lost_effects targets lost, t')
