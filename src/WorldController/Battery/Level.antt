-- ===== src/WorldController/Battery/Level.antt =====
-- The level of the battery over a run
-- (internal-components/world-controller/internal/hw/hw.go).
use yass_simulator.Base.{
  ◌≡◌, refl, sym, subst, ap, ◌∙◌, true, false, Option, some, List, [], ◌∷◌, arith, if◌then◌else◌,
}
use yass_simulator.Base.Int.{ℤ, pos}
use yass_simulator.Base.Float.{Floats}
use yass_simulator.WorldController.Battery.{
  HardwareSpec, NodeHwState, new_node_hw_state, set_in_shadow, not_negative, new_level,
  update_energy, power, power_of, Call, updated, shaded, apply_call, run_calls, TrafficStats,
}

module _ {F : Type 0} (fl : Floats F) (seconds : ℤ → F) where
  -- What Update publishes is what Power answers behind it, and the base consumption is that of the
  -- mode which is published.
  pub power-update_energy :
      (stats : List (Option TrafficStats)) (now : ℤ) (s : NodeHwState F)
      → let (sent, s') = update_energy fl seconds stats now s in
        (power fl seconds s' ≡ (sent.battery_wh, sent.capacity_wh, sent.shadow, sent.low_power))
        × (s'.energy_consumption
            ≡ (if sent.low_power then s.hw.low_power_base_w else s.hw.normal_power_base_w))
        × (s'.last_update ≡ some now)
  unfolding update_energy power_of
  power-update_energy stats now s = (refl, refl, refl)

  -- Update leaves a level that is not below 0, whatever was consumed, where neither the capacity nor
  -- 0 is.
  pub battery_level-update_energy :
      (stats : List (Option TrafficStats)) (now : ℤ) (s : NodeHwState F)
      → fl.lt (fl.of_int (pos 0)) (fl.of_int (pos 0)) ≡ false
      → fl.lt s.hw.battery_capacity_wh (fl.of_int (pos 0)) ≡ false
      → fl.lt (update_energy fl seconds stats now s).1.battery_level (fl.of_int (pos 0)) ≡ false
  unfolding update_energy new_level not_negative
  battery_level-update_energy stats now s zero capacity = ground arith

  apply_call_full :
      (c : Call) (s : NodeHwState F)
      → fl.le s.hw.battery_capacity_wh s.hw.battery_capacity_wh ≡ true
      → s.battery_level ≡ s.hw.battery_capacity_wh
      → ((apply_call fl seconds c s).battery_level ≡ s.hw.battery_capacity_wh)
        × ((apply_call fl seconds c s).hw ≡ s.hw)
  unfolding apply_call update_energy new_level set_in_shadow
  apply_call_full (updated stats now) s self full = (rw (full, self), refl)
  apply_call_full (shaded v) s self full = (full, refl)

  run_calls_full :
      (calls : List Call) (s : NodeHwState F)
      → fl.le s.hw.battery_capacity_wh s.hw.battery_capacity_wh ≡ true
      → s.battery_level ≡ s.hw.battery_capacity_wh
      → (run_calls fl seconds calls s).battery_level ≡ s.hw.battery_capacity_wh
  unfolding run_calls
  run_calls_full [] s self full = full
  run_calls_full (c ∷ calls) s self full =
      let (level, same) = apply_call_full c s self full in
      let kept : (apply_call fl seconds c s).hw.battery_capacity_wh ≡ s.hw.battery_capacity_wh =
        ap (λ (h : HardwareSpec F). h.battery_capacity_wh) same in
      run_calls_full calls (apply_call fl seconds c s)
        (subst (λ x. fl.le x x ≡ true) (sym kept) self) (level ∙ sym kept)
      ∙ kept

  -- A node starts with a full battery, and Update holds a battery that is full: in no run, whatever
  -- is sent, however much time passes and however long the node is in the shadow, does the level
  -- fall below the capacity, where x <= x holds of the capacity.
  pub run_calls-new_node_hw_state :
      (calls : List Call) (spec : HardwareSpec F)
      → fl.le spec.battery_capacity_wh spec.battery_capacity_wh ≡ true
      → (run_calls fl seconds calls (new_node_hw_state spec)).battery_level
        ≡ spec.battery_capacity_wh
  unfolding new_node_hw_state
  run_calls-new_node_hw_state calls spec self = run_calls_full calls _ self refl
