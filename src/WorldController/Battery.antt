-- ===== src/WorldController/Battery.antt =====
-- The battery and the energy of a node: `NodeHwState` of
-- internal-components/world-controller/internal/hw/hw.go, with the part of the hardware of
-- yass-operator/api/v1/hardware_def_types.go that it reads. The text for the status is left out.
pub mod Level
pub mod Traffic
use yass_simulator.Base.{
  ℕ, ◌+◌, String, Bool, true, false, ◌&&◌, Option, none, some, List, [], ◌∷◌, ltb, string_eq,
  if◌then◌else◌,
}
use yass_simulator.Base.Int.{ℤ, pos, ◌-ℤ◌, uint64}
use yass_simulator.Base.Map.{Map, lookup, insert}
use yass_simulator.Base.Float.{Floats}

pub record HardwareSpec (F : Type 0) : Type 0 where
  pub battery_capacity_wh : F
  pub battery_charge_w : F
  pub low_power_threshold_wh : F
  pub normal_power_base_w : F
  pub low_power_base_w : F
  pub perk_byte_tx_wh : F

-- Two fields of the message; a counter is a uint64.
pub record TrafficStats : Type 0 where
  pub ip : String
  pub total_bytes_sent : ℕ

-- `none` is the zero time. Instants are integers, in nanoseconds.
pub record NodeHwState (F : Type 0) : Type 0 where
  pub hw : HardwareSpec F
  pub battery_level : F
  pub energy_consumption : F
  pub total_byte_out_per_ip : Map String ℕ
  pub last_update : Option ℤ
  pub in_shadow : Bool

pub record EnergySnapshot (F : Type 0) : Type 0 where
  pub battery_wh : F
  pub capacity_wh : F
  pub energy_consumption_w : F
  pub shadow : Bool
  pub low_power : Bool

-- The bytes sent to one address in this turn: the difference of two counters in uint64.
sent_since : Option ℕ → ℕ → ℕ
sent_since none total = 0
sent_since (some prev) total = uint64 (pos total -ℤ pos prev)

-- The loop over the statistics, some of which may be nil: the sum, in uint64, and the counters.
unfoldable pub count_sent : List (Option TrafficStats) → ℕ → Map String ℕ → ℕ × Map String ℕ
unfolding sent_since
count_sent [] sum totals = (sum, totals)
count_sent (none ∷ stats) sum totals = count_sent stats sum totals
count_sent (some ts ∷ stats) sum totals =
    count_sent stats (uint64 (pos (sum + sent_since (lookup ts.ip totals) ts.total_bytes_sent)))
      (insert ts.ip ts.total_bytes_sent totals)

unfoldable pub new_node_hw_state : {F : Type 0} → HardwareSpec F → NodeHwState F
new_node_hw_state spec = record {
  hw = spec;
  battery_level = spec.battery_capacity_wh;
  energy_consumption = spec.normal_power_base_w;
  total_byte_out_per_ip = [];
  last_update = none;
  in_shadow = false;
}

unfoldable pub set_in_shadow : {F : Type 0} → Bool → NodeHwState F → NodeHwState F
set_in_shadow v s = record s { in_shadow = v }

-- `seconds` is time.Duration's Seconds.
module _ {F : Type 0} (fl : Floats F) (seconds : ℤ → F) where
  zero_f : F
  zero_f = fl.of_int (pos 0)

  elapsed : Option ℤ → ℤ → F
  unfolding zero_f
  elapsed none now = zero_f
  elapsed (some last) now = seconds (now -ℤ last)

  -- The change of the energy in joules, as a float32.
  energy_change : ℕ → F → NodeHwState F → F
  unfolding zero_f
  energy_change sent t s =
      let tx_wh =
        fl.mul (fl.div (fl.of_int (pos sent)) (fl.of_int (pos 1000))) s.hw.perk_byte_tx_wh in
      let drain =
        fl.add (fl.mul s.hw.normal_power_base_w t) (fl.mul tx_wh (fl.of_int (pos 3600))) in
      let gain = if s.in_shadow then zero_f else fl.mul s.hw.battery_charge_w t in
      fl.round32 (fl.sub gain drain)

  -- `if s.batteryLevel < 0 { s.batteryLevel = 0 }`
  unfoldable pub not_negative : F → F
  unfolding zero_f
  not_negative level = if fl.lt level zero_f then zero_f else level

  unfoldable pub new_level : F → NodeHwState F → F
  unfolding not_negative
  new_level change s =
      if fl.le s.hw.battery_capacity_wh s.battery_level
      then s.hw.battery_capacity_wh
      else not_negative
          (fl.round32 (fl.add s.battery_level (fl.round32 (fl.div change (fl.of_int (pos 3600))))))

  unfoldable pub is_low_power : HardwareSpec F → F → Bool
  unfolding zero_f
  is_low_power hw level =
      fl.lt zero_f hw.battery_capacity_wh && fl.le level hw.low_power_threshold_wh

  snapshot : NodeHwState F → Bool → EnergySnapshot F
  snapshot s low = record {
    battery_wh = s.battery_level;
    capacity_wh = s.hw.battery_capacity_wh;
    energy_consumption_w = s.energy_consumption;
    shadow = s.in_shadow;
    low_power = low;
  }

  -- `Update` at the instant `now`: the payload, and the new state.
  unfoldable pub update_energy :
      List (Option TrafficStats) → ℤ → NodeHwState F → EnergySnapshot F × NodeHwState F
  unfolding elapsed energy_change snapshot
  update_energy stats now s =
      let (sent, totals) = count_sent stats 0 s.total_byte_out_per_ip in
      let level = new_level (energy_change sent (elapsed s.last_update now) s) s in
      let low = is_low_power s.hw level in
      let s' = record s {
        battery_level = level;
        energy_consumption = if low then s.hw.low_power_base_w else s.hw.normal_power_base_w;
        total_byte_out_per_ip = totals;
        last_update = some now;
      } in
      (snapshot s' low, s')

  -- Power: the level, the capacity, the shadow and the low power mode.
  unfoldable pub power_of : Option (HardwareSpec F) → NodeHwState F → F × F × Bool × Bool
  power_of none s = (s.battery_level, fl.of_int (pos 0), s.in_shadow, false)
  power_of (some hw) s =
      (s.battery_level, hw.battery_capacity_wh, s.in_shadow, is_low_power hw s.battery_level)

  -- NewNodeHwState reads its hardware, so that every state has one.
  abbrev pub power : NodeHwState F → F × F × Bool × Bool
  power s = power_of (some s.hw) s

-- The calls that reach the state: an update, or a change of the shadow.
pub data Call : Type 0 where
  updated : List (Option TrafficStats) → ℤ → Call
  shaded : Bool → Call

module _ {F : Type 0} (fl : Floats F) (seconds : ℤ → F) where
  apply_call : Call → NodeHwState F → NodeHwState F
  apply_call (updated stats now) s = (update_energy fl seconds stats now s).1
  apply_call (shaded v) s = set_in_shadow v s

  unfoldable pub run_calls : List Call → NodeHwState F → NodeHwState F
  unfolding apply_call
  run_calls [] s = s
  run_calls (c ∷ calls) s = run_calls calls (apply_call c s)
