-- ===== src/MetricsBridge/Bridge/Counted.antt =====
-- What is counted for a file (internal-components/metrics-bridge/internal/bridge/bridge.go).
use yass_simulator.Base.{
  ◌⊎◌, ◌↔◌, Bool, true, Option, Bool-cases, inl, inr, arith, refl, some, string_beq_iff, String,
  ◌≡◌, ◌≢◌, ap, ◌∙◌, none, some, [], ◌∷◌, string_eq, length,
}
use yass_simulator.Base.Int.{ℤ, pos, ◌<ℤ◌, ◌≤ℤ◌, ◌-ℤ◌, ◌+ℤ◌, ltb_ℤ}
use yass_simulator.Base.Map.{Map, lookup}
use yass_simulator.MetricsBridge.IpMap.{node_type_of}
use yass_simulator.MetricsBridge.Tracker.{Tracker, record_put, Match, unknown, match_receive}
use yass_simulator.MetricsBridge.Tracker.Receipts.{match_receive-match_receive}
use yass_simulator.MetricsBridge.Tracker.Deliveries.{match_receive-record_put}
use yass_simulator.MetricsBridge.Bridge.{
  CrudType, on_crud_type, put, received, FileEvent, crud, file_received, file_delivered, Targets,
  target_gs_for, is_target, delivery_time, receipt_effects, on_crud_event,
}

-- A receipt that was joined with its PUT, or was itself a repetition, and comes again, is not counted
-- again: only its line in the log is pushed.
pub on_crud_event-on_crud_event :
    (targets : Targets) (e : FileEvent) (t : Tracker)
    → e.type ≡ received
    → (match_receive e.md5_sum e.name e.fs_node_name t).0 ≢ unknown
    → (on_crud_event targets e (on_crud_event targets e t).1).0 ≡ crud e none ∷ []
unfolding on_crud_type receipt_effects
on_crud_event-on_crud_event targets e t kind known =
    ap (λ (k : CrudType). (on_crud_type targets k e (on_crud_type targets k e t).1).0) kind
    ∙ ap (λ (m : Match). receipt_effects m e targets)
        (match_receive-match_receive e.md5_sum e.name e.fs_node_name t known)

effects-delivered :
    (targets : Targets) (e r : FileEvent) (t : Tracker)
    → e.type ≡ put
    → r.type ≡ received
    → r.md5_sum ≡ e.md5_sum
    → r.name ≡ e.name
    → e.fs_node_name ≢ ""
    → e.md5_sum ≢ ""
    → lookup e.md5_sum t.pending ≡ none
    → pos (length t.pending) <ℤ t.max_size
    → (on_crud_event targets r (on_crud_event targets e t).1).0
      ≡ file_received r.fs_node_name e.fs_node_name r.content_size_bytes
        ∷ file_delivered e.fs_node_name r.fs_node_name
            (is_target e.fs_node_name r.fs_node_name targets)
            (delivery_time r.when e.when)
        ∷ crud r (some (e.fs_node_name, delivery_time r.when e.when))
        ∷ []
unfolding on_crud_type receipt_effects
effects-delivered targets e r t produced received_r same same_name named summed new room =
    let t' = record_put e.md5_sum e.name e.fs_node_name e.content_size_bytes e.when t in
    ap (λ (k : CrudType). (on_crud_type targets r.type r (on_crud_type targets k e t).1).0) produced
    ∙ ap (λ (k : CrudType). (on_crud_type targets k r t').0) received_r
    ∙ ap
        (λ (sum : String). receipt_effects (match_receive sum r.name r.fs_node_name t').0 r targets)
        same
    ∙ ap
        (λ (name : String).
          receipt_effects (match_receive e.md5_sum name r.fs_node_name t').0 r targets)
        same_name
    ∙ ap (λ (m : Match). receipt_effects m r targets)
        (match_receive-record_put e.md5_sum e.name e.fs_node_name r.fs_node_name
          e.content_size_bytes e.when t named summed new room).0

delivery_time-cases :
    (got made : ℤ)
    → ((got <ℤ made) × (delivery_time got made ≡ pos 0))
      ⊎ ((made ≤ℤ got) × (delivery_time got made ≡ got -ℤ made))
unfolding delivery_time ◌-ℤ◌ ◌+ℤ◌
delivery_time-cases got made = elim (Bool-cases (ltb_ℤ (got -ℤ made) (pos 0))) [
  | inl back ↦ inl (ground (arith, back), ground (arith, back))
  | inr forth ↦ inr (ground (arith, forth), ground (arith, forth))
]

-- The receiver is the target that is configured for the producer, or there is none and the receiver
-- is known as a ground station.
abbrev pub IsGroundDelivery : String → String → Targets → Type 0
IsGroundDelivery producer receiver targets =
    ((receiver ≢ "") × (lookup producer targets.target_gs_by_fs_node ≡ some receiver))
    ⊎ (((lookup producer targets.target_gs_by_fs_node ≡ none)
          ⊎ (lookup producer targets.target_gs_by_fs_node ≡ some ""))
        × (node_type_of receiver targets.ips ≡ "groundStation"))

target_gs_for-lookup :
    (producer : String) (m : Map String String) (target : Option String)
    → lookup producer m ≡ target
    → target_gs_for producer m ≡ (elim target as (λ x. String) [ none ↦ "" | some gs ↦ gs ])
unfolding target_gs_for
target_gs_for-lookup producer m target same =
    ap (λ (o : Option String). elim o as (λ x. String) [ none ↦ "" | some gs ↦ gs ]) same

is_target-lookup :
    (producer receiver : String) (targets : Targets) (target : Option String)
    → lookup producer targets.target_gs_by_fs_node ≡ target
    → (is_target producer receiver targets ≡ true) ↔ IsGroundDelivery producer receiver targets
unfolding is_target
is_target-lookup producer receiver targets none same =
    rw (target_gs_for-lookup producer targets.target_gs_by_fs_node none same, same)
      (ground (
        arith,
        string_beq_iff "" "",
        string_beq_iff (node_type_of receiver targets.ips) "groundStation",
      ))
is_target-lookup producer receiver targets (some target) same =
    rw (target_gs_for-lookup producer targets.target_gs_by_fs_node (some target) same, same)
      (ground (
        arith,
        string_beq_iff target "",
        string_beq_iff target receiver,
        string_beq_iff (node_type_of receiver targets.ips) "groundStation",
      ))

-- A file with an md5sum that is not pending is produced by a node with a name, in a tracker with
-- room for it, and a receiver reports it with its md5sum and its name: the receipt is counted with
-- the producer as its source, the delivery with the time between the two events, or 0 if the clocks
-- make it negative, and as one to the ground exactly if the receiver is the configured target of
-- the producer or, without one, is known as a ground station.
pub on_crud_event-delivered :
    (targets : Targets) (e r : FileEvent) (t : Tracker)
    → e.type ≡ put
    → r.type ≡ received
    → r.md5_sum ≡ e.md5_sum
    → r.name ≡ e.name
    → e.fs_node_name ≢ ""
    → e.md5_sum ≢ ""
    → lookup e.md5_sum t.pending ≡ none
    → pos (length t.pending) <ℤ t.max_size
    → (to_ground : Bool) × (d : ℤ) × ((on_crud_event targets r (on_crud_event targets e t).1).0
        ≡ file_received r.fs_node_name e.fs_node_name r.content_size_bytes
          ∷ file_delivered e.fs_node_name r.fs_node_name to_ground d
          ∷ crud r (some (e.fs_node_name, d))
          ∷ [])
      × (((r.when <ℤ e.when) × (d ≡ pos 0)) ⊎ ((e.when ≤ℤ r.when) × (d ≡ r.when -ℤ e.when)))
      × ((to_ground ≡ true) ↔ IsGroundDelivery e.fs_node_name r.fs_node_name targets)
on_crud_event-delivered targets e r t produced received_r same same_name named summed new room = (
  is_target e.fs_node_name r.fs_node_name targets,
  delivery_time r.when e.when,
  effects-delivered targets e r t produced received_r same same_name named summed new room,
  delivery_time-cases r.when e.when,
  is_target-lookup e.fs_node_name r.fs_node_name targets
      (lookup e.fs_node_name targets.target_gs_by_fs_node) refl,
)
