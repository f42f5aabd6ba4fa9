-- ===== src/Tests/Metrics.antt =====
-- The theorems on internal-components/metrics-bridge/internal/state/state.go at concrete inputs.
use yass_simulator.Base.{
  Bool, ◌⊎◌, ◌↔◌, true, ◌≡◌, ◌≢◌, refl, none, some, [], ◌∷◌, arith, string_eq, string_beq_iff,
  contains,
}
use yass_simulator.Base.Int.{ℤ, ◌<ℤ◌, ◌≤ℤ◌, ◌-ℤ◌, pos, ◌-ℤ◌}
use yass_simulator.Base.Map.{lookup}
use yass_simulator.MetricsBridge.Tracker.{
  PendingPut, Tracker, record_put, match_receive, Match, delivered, duplicate, unknown, resolve,
  evict_expired,
}
use yass_simulator.MetricsBridge.Tracker.Consistency.{IsConsistent, IsBounded, record_put-IsBounded}
use yass_simulator.MetricsBridge.Tracker.Receipts.{match_receive-match_receive}
use yass_simulator.MetricsBridge.Tracker.Deliveries.{match_receive-record_put}
use yass_simulator.MetricsBridge.Tracker.Eviction.{lookup-evict_expired}
use yass_simulator.MetricsBridge.Tracker.SharedNames.{evict_expired-shared_name}
use yass_simulator.MetricsBridge.Bridge.{
  put, received, FileEvent, file_received, file_delivered, crud, Targets, on_crud_event,
}
use yass_simulator.MetricsBridge.Bridge.Counted.{
  IsGroundDelivery, on_crud_event-delivered, on_crud_event-on_crud_event,
}
use yass_simulator.MetricsBridge.IpMap.{IpMap}

-- Two PUTs of one name, an old one and a young one, and room for one more.
abbrev old_put : PendingPut
old_put = record {
  source = "sat-1";
  size_bytes = pos 10;
  when = pos 100;
  name = "image";
  received = "sat-2" ∷ [];
}

abbrev young_put : PendingPut
young_put = record {
  source = "sat-1";
  size_bytes = pos 20;
  when = pos 900;
  name = "image";
  received = [];
}

abbrev two_puts : Tracker
two_puts = record {
  pending = ("aa", old_put) ∷ ("bb", young_put) ∷ [];
  by_name = ("image", "bb") ∷ [];
  deadline = pos 300;
  max_size = pos 3;
  insert_order = "aa" ∷ "bb" ∷ [];
}

two_puts-IsConsistent : IsConsistent two_puts
unfolding contains
two_puts-IsConsistent = record { order_keys = refl; distinct = (refl, (refl, tt)) }

two_puts-IsBounded : IsBounded two_puts
two_puts-IsBounded = record { consistent = two_puts-IsConsistent; within = omega arith }

record_put-IsBounded_example : IsBounded (record_put "cc" "log" "sat-3" (pos 5) (pos 950) two_puts)
record_put-IsBounded_example =
    record_put-IsBounded "cc" "log" "sat-3" (pos 5) (pos 950) two_puts two_puts-IsBounded

-- The receipt is delivered.
is_delivered : (match_receive "aa" "" "sat-4" two_puts).0 ≢ unknown
unfolding match_receive resolve lookup contains
is_delivered = λ e. cc

match_receive-match_receive_example :
    (match_receive "aa" "" "sat-4" (match_receive "aa" "" "sat-4" two_puts).1).0 ≡ duplicate
match_receive-match_receive_example =
    match_receive-match_receive "aa" "" "sat-4" two_puts is_delivered

abbrev log_put : Match
log_put =
    delivered
      (record { source = "sat-3"; size_bytes = pos 5; when = pos 950; name = "log"; received = [] })

match_receive-record_put_example :
    let t' = record_put "cc" "log" "sat-3" (pos 5) (pos 950) two_puts in
    ((match_receive "cc" "log" "sat-6" t').0 ≡ log_put)
    × ((match_receive "" "log" "sat-6" t').0 ≡ log_put)
unfolding lookup
match_receive-record_put_example =
    match_receive-record_put "cc" "log" "sat-3" "sat-6" (pos 5) (pos 950) two_puts
      (λ e. ground (arith, string_beq_iff "sat-3" "")) (λ e. ground (arith, string_beq_iff "cc" ""))
      refl (omega arith)

lookup-evict_expired_example : lookup "aa" (evict_expired (pos 1000) two_puts).1.pending ≡ none
unfolding ◌-ℤ◌ lookup
lookup-evict_expired_example = lookup-evict_expired (pos 1000) two_puts "aa" two_puts-IsConsistent

evict_expired-shared_name_example :
    let t' = (evict_expired (pos 1000) two_puts).1 in
    (lookup "bb" t'.pending ≡ some young_put) × ((match_receive "" "image" "sat-7" t').0 ≡ unknown)
unfolding ◌-ℤ◌ lookup
evict_expired-shared_name_example =
    evict_expired-shared_name (pos 1000) two_puts "aa" "bb" "sat-7" old_put young_put
      two_puts-IsConsistent refl refl refl (λ e. ground (arith, string_beq_iff "image" "")) refl
      refl

abbrev one_node : IpMap
one_node = record {
  by_ip = ("10.0.0.1", record { fs_node = "sat-1"; node_type = "satellite" }) ∷ [];
  by_name = ("sat-1", "10.0.0.1") ∷ [];
}

abbrev targets : Targets
targets = record {
  target_gs_by_fs_node = ("sat-3", "gs-1") ∷ [];
  ips = record { by_ip = []; by_name = [] };
}

abbrev log_made : FileEvent
log_made = record {
  type = put;
  name = "log";
  fs_node_name = "sat-3";
  md5_sum = "cc";
  content_size_bytes = pos 5;
  when = pos 950;
}

abbrev log_got : FileEvent
log_got = record log_made { type = received; fs_node_name = "gs-1"; when = pos 960 }

on_crud_event-delivered_example :
    (to_ground : Bool) × (d : ℤ) × ((on_crud_event targets log_got
        (on_crud_event targets log_made two_puts).1).0
      ≡ file_received "gs-1" "sat-3" (pos 5)
        ∷ file_delivered "sat-3" "gs-1" to_ground d
        ∷ crud log_got (some ("sat-3", d))
        ∷ [])
    × (((pos 960 <ℤ pos 950) × (d ≡ pos 0)) ⊎ ((pos 950 ≤ℤ pos 960) × (d ≡ pos 960 -ℤ pos 950)))
    × ((to_ground ≡ true) ↔ IsGroundDelivery "sat-3" "gs-1" targets)
unfolding lookup
on_crud_event-delivered_example =
    on_crud_event-delivered targets log_made log_got two_puts refl refl refl refl
      (λ e. ground (arith, string_beq_iff "sat-3" "")) (λ e. ground (arith, string_beq_iff "cc" ""))
      refl (omega arith)

abbrev image_got : FileEvent
image_got = record log_got { name = ""; fs_node_name = "sat-4"; md5_sum = "aa" }

on_crud_event-on_crud_event_example :
    (on_crud_event targets image_got (on_crud_event targets image_got two_puts).1).0
    ≡ crud image_got none ∷ []
on_crud_event-on_crud_event_example =
    on_crud_event-on_crud_event targets image_got two_puts refl is_delivered
