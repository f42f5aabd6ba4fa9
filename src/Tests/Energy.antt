-- ===== src/Tests/Energy.antt =====
-- The theorems on internal-components/world-controller/internal/hw/hw.go at concrete inputs.
use yass_simulator.Base.{
  ℕ, String, ◌≡◌, refl, true, Option, none, some, List, [], ◌∷◌, arith, string_eq,
}
use yass_simulator.Base.Int.{ℤ, pos}
use yass_simulator.Base.Map.{Map, lookup}
use yass_simulator.Tests.Whole.{whole}
use yass_simulator.WorldController.Battery.{
  HardwareSpec, TrafficStats, NodeHwState, new_node_hw_state, count_sent, updated, shaded,
  run_calls,
}
use yass_simulator.WorldController.Battery.Level.{run_calls-new_node_hw_state}
use yass_simulator.WorldController.Battery.Traffic.{IsForward, count_sent_behind}

abbrev satellite : HardwareSpec ℤ
satellite = record {
  battery_capacity_wh = pos 1000;
  battery_charge_w = pos 50;
  low_power_threshold_wh = pos 100;
  normal_power_base_w = pos 20;
  low_power_base_w = pos 5;
  perk_byte_tx_wh = pos 1;
}

abbrev stats : List (Option TrafficStats)
stats =
    some (record { ip = "10.0.0.1"; total_bytes_sent = 500 })
    ∷ none
    ∷ some (record { ip = "10.0.0.2"; total_bytes_sent = 900 })
    ∷ []

abbrev totals : Map String ℕ
totals = ("10.0.0.1", 200) ∷ []

abbrev half_full : NodeHwState ℤ
half_full = record {
  hw = satellite;
  battery_level = pos 500;
  energy_consumption = pos 20;
  total_byte_out_per_ip = totals;
  last_update = some (pos 0);
  in_shadow = true;
}

abbrev seconds : ℤ → ℤ
seconds z = z

-- Two hours in the shadow, with traffic.
run_calls-new_node_hw_state_example :
    (run_calls whole seconds
      (shaded true ∷ updated stats (pos 0) ∷ updated stats (pos 7200) ∷ [])
      (new_node_hw_state satellite)).battery_level
    ≡ pos 1000
run_calls-new_node_hw_state_example =
    run_calls-new_node_hw_state whole seconds
      (shaded true ∷ updated stats (pos 0) ∷ updated stats (pos 7200) ∷ []) satellite refl

stats-IsForward : IsForward totals stats
unfolding lookup
stats-IsForward = (omega arith, (λ prev h. ground arith), (omega arith, (λ prev h. cc), tt))

count_sent_behind_example :
    (count_sent (some (record { ip = "10.0.0.1"; total_bytes_sent = 150 }) ∷ []) 0 totals).0
    ≡ 18446744073709551566
unfolding lookup
count_sent_behind_example =
    count_sent_behind (record { ip = "10.0.0.1"; total_bytes_sent = 150 }) 200 totals refl
      (omega arith) (omega arith)
