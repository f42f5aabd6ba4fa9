-- ===== src/WorldController/HwEvents/Manager.antt =====
-- The state and the steps of `Manager`
-- (internal-components/world-controller/internal/hwevents/hwevents.go).
use yass_simulator.Base.{
  ℕ, String, Bool, true, false, Option, none, some, List, [], ◌∷◌, ◌++◌, ◌==◌, string_eq, nat_eq,
  if◌then◌else◌,
}
use yass_simulator.Base.Int.{ℤ, pos}
use yass_simulator.Base.Map.{Map, lookup, delete, member, keys}
use yass_simulator.WorldController.Networking.Overlay.{Overlay, clear_overlay}
use yass_simulator.WorldController.HwEvents.Event.{
  EventType, network_bandwidth_reduced, network_failure, disk_full, disk_failure, destroy, type_eq,
  HardwareEvent, Sched,
}

-- eventName: the name of an event, or its type in lower case with its index.
pub data FaultName : Type 0 where
  given : String → FaultName
  numbered : EventType → ℕ → FaultName

-- `none` is the zero time of an end that never comes.
pub record ActiveFault : Type 0 where
  pub name : FaultName
  pub ends_at : Option ℤ
  pub override : ℤ
  pub reduction_pct : ℤ

pub data Change : Type 0 where
  dropped_overlap active_now cleared : Change

-- What the manager does to the rest of the node. ApplyFaultOverlay is not listed here: its three
-- arguments are the overlay that the manager has asked for last.
pub data Effect : Type 0 where
  remount_read_only remount_read_write mount_error_fs unmount_error_fs : Effect
  mark_destroyed kill_targets publish_offline : Effect
  publish : EventType → Change → Effect

-- The event and the scheduler's state of one slot of the two parallel slices.
pub record Slot (R : Type 0) : Type 0 where
  pub event : HardwareEvent
  pub sched : Sched R

pub record Manager (R : Type 0) : Type 0 where
  pub slots : List (Slot R)
  pub exp_start : ℤ
  pub active : Map EventType ActiveFault
  pub destroyed : Bool
  pub overlay : Overlay
  pub effects : List Effect

unfoldable pub event_name : HardwareEvent → ℕ → FaultName
event_name e idx = if e.name == "" then numbered e.type idx else given e.name

-- isBlackHole, externalCap and reductionPercent.
unfoldable pub is_black_hole : Map EventType ActiveFault → Bool
is_black_hole a = member network_failure a

unfoldable pub external_cap : Map EventType ActiveFault → ℤ
external_cap a = elim (lookup network_bandwidth_reduced a) [ none ↦ pos 0 | some f ↦ f.override ]

unfoldable pub reduction_percent : Map EventType ActiveFault → ℤ
reduction_percent a = elim (lookup network_bandwidth_reduced a) [
  | none ↦ pos 0
  | some f ↦ f.reduction_pct
]

module _ {R : Type 0} where
  unfoldable pub do_effect : Effect → Manager R → Manager R
  do_effect x m = record m { effects = m.effects ++ x ∷ [] }

  ask_overlay : Overlay → Manager R → Manager R
  ask_overlay o m = record m { overlay = o }

  -- Manager.destroy: the signal before the kill, and the offline state behind it.
  unfoldable pub destroy_node : Manager R → Manager R
  unfolding do_effect
  destroy_node m =
      do_effect publish_offline
        (record (do_effect kill_targets (do_effect mark_destroyed m)) { destroyed = true })

  unfoldable pub activate : EventType → ActiveFault → Manager R → Manager R
  unfolding ask_overlay destroy_node is_black_hole external_cap reduction_percent do_effect
  activate network_bandwidth_reduced a m =
      ask_overlay
        (record {
          external_cap_bps = a.override;
          reduction_pct = a.reduction_pct;
          black_hole = is_black_hole m.active;
        })
        m
  activate network_failure a m =
      ask_overlay
        (record {
          external_cap_bps = external_cap m.active;
          reduction_pct = reduction_percent m.active;
          black_hole = true;
        })
        m
  activate disk_full a m = do_effect remount_read_only m
  activate disk_failure a m = do_effect mount_error_fs m
  activate destroy a m = destroy_node m

  unfoldable pub deactivate : EventType → Manager R → Manager R
  unfolding ask_overlay is_black_hole external_cap reduction_percent do_effect
  deactivate network_bandwidth_reduced m =
      ask_overlay (record clear_overlay { black_hole = is_black_hole m.active }) m
  deactivate network_failure m =
      ask_overlay
        (record {
          external_cap_bps = external_cap m.active;
          reduction_pct = reduction_percent m.active;
          black_hole = false;
        })
        m
  deactivate disk_full m = do_effect remount_read_write m
  deactivate disk_failure m = do_effect unmount_error_fs m
  deactivate destroy m = m

  unfoldable pub clear_found : Option ActiveFault → EventType → Manager R → Manager R
  clear_found none typ m = m
  clear_found (some a) typ m =
      do_effect (publish typ cleared) (deactivate typ (record m { active = delete typ m.active }))

  unfoldable pub clear_one : EventType → Manager R → Manager R
  unfolding clear_found
  clear_one typ m = clear_found (lookup typ m.active) typ m

  unfoldable pub clear_types : List EventType → Manager R → Manager R
  clear_types [] m = m
  clear_types (typ ∷ types) m = clear_types types (clear_one typ m)

unfoldable pub clear_all : {R : Type 0} → Manager R → Manager R
clear_all m = clear_types (keys m.active) m
