-- ===== src/WorldController/HwEvents/Tick.antt =====
-- Firing, and the tick of the scheduler: `fire`, `advanceNext` and `runTick` of
-- internal-components/world-controller/internal/hwevents/hwevents.go.
pub mod Coherence
pub mod Counts
pub mod Occurrences
pub mod Destroyed
use yass_simulator.Base.{
  ℕ, suc, ◌+◌, String, Bool, true, false, Option, none, some, List, [], ◌∷◌, if◌then◌else◌,
  get_elem?, set,
}
use yass_simulator.Base.Int.{ℤ, pos, ◌+ℤ◌, ltb_ℤ}
use yass_simulator.Base.Map.{Map, lookup, insert}
use yass_simulator.Base.Float.{Floats}
use yass_simulator.WorldController.HwEvents.Event.{
  EventType, network_bandwidth_reduced, destroy, type_eq, Schedule, BandwidthParams, HardwareEvent,
  Sched, Clockwork, is_used_up, jitter, percent, next_fire_wall,
}
use yass_simulator.WorldController.HwEvents.Manager.{
  ActiveFault, dropped_overlap, active_now, publish, Slot, Manager, event_name, do_effect, activate,
  clear_types,
}

-- `!a.endsAt.IsZero() && now.After(a.endsAt)`
unfoldable pub is_over : ℤ → ActiveFault → Bool
is_over now a = elim a.ends_at [ none ↦ false | some t ↦ ltb_ℤ t now ]

unfoldable pub types_over : ℤ → Map EventType ActiveFault → List EventType
unfolding is_over
types_over now [] = []
types_over now ((typ, a) ∷ m) =
    let rest = types_over now m in if is_over now a then typ ∷ rest else rest

-- The remembered parameters of a bandwidth fault.
fault_params : EventType → Option (Option BandwidthParams) → BandwidthParams
fault_params network_bandwidth_reduced (some (some p)) = p
fault_params _ _ = record { cap_bits_per_sec = pos 0; reduction_percent = pos 0 }

module _ {F R : Type 0} (fl : Floats F) (cw : Clockwork F R) where
  duration_or_zero : String → ℤ
  duration_or_zero text = elim (cw.parse_duration text) [ none ↦ pos 0 | some d ↦ d ]

  pub planned_end : EventType → Option Schedule → HardwareEvent → Sched R → ℤ → Option ℤ × Sched R
  unfolding duration_or_zero percent
  planned_end destroy schedule e st now = (none, st)
  planned_end _ (some sch) e st now =
      let (dur, rng') =
        jitter fl cw st.rng (duration_or_zero sch.duration_mean)
          (percent fl cw sch.duration_jitter_percent) in
      (some (now +ℤ dur), record st { rng = rng' })
  planned_end _ none e st now = (some (now +ℤ duration_or_zero e.duration), st)

  plan_next : Option ℤ → Schedule → Sched R → ℤ → Sched R
  unfolding percent
  plan_next none sch st base = record st { exhausted = true }
  plan_next (some mean) sch st base =
      let (dur, rng') = jitter fl cw st.rng mean (percent fl cw sch.interval_jitter_percent) in
      record st { rng = rng'; next_wall_fire = some (base +ℤ dur) }

  unfoldable pub advance_next : Option Schedule → Sched R → ℤ → Sched R
  unfolding plan_next
  advance_next none st base = st
  advance_next (some sch) st base =
      if is_used_up sch st.fired
      then record st { exhausted = true }
      else plan_next (cw.parse_duration sch.interval_mean) sch st base

  counted : Sched R → Sched R
  counted st = record st { fired = st.fired + 1 }

  put_sched : ℕ → Slot R → Sched R → Manager R → Manager R
  put_sched idx slot st m = record m { slots = set m.slots idx (record slot { sched = st }) }

  -- The overlap rule of `fire`, and what it does otherwise.
  fire_slot : Option ActiveFault → ℕ → Slot R → ℤ → Manager R → Manager R
  unfolding put_sched counted planned_end fault_params event_name
  fire_slot (some current) idx slot now m =
      do_effect (publish slot.event.type dropped_overlap)
        (put_sched idx slot (advance_next slot.event.schedule (counted slot.sched) now) m)
  fire_slot none idx slot now m =
      let e = slot.event in
      let (ends_at, st) = planned_end e.type e.schedule e slot.sched now in
      let p = fault_params e.type e.params in
      let a : ActiveFault = record {
        name = event_name e idx;
        ends_at = ends_at;
        override = p.cap_bits_per_sec;
        reduction_pct = p.reduction_percent;
      } in
      let m' = put_sched idx slot (advance_next e.schedule (counted st) now) m in
      do_effect (publish e.type active_now)
        (activate e.type a (record m' { active = insert e.type a m.active }))

  fire_at : Option (Slot R) → ℕ → ℤ → Manager R → Manager R
  unfolding fire_slot
  fire_at none idx now m = m
  fire_at (some slot) idx now m = fire_slot (lookup slot.event.type m.active) idx slot now m

  unfoldable pub fire : ℕ → ℤ → Manager R → Manager R
  unfolding fire_at
  fire idx now m = fire_at (get_elem? m.slots idx) idx now m

  unfoldable pub fire_all : List ℕ → ℤ → Manager R → Manager R
  fire_all [] now m = m
  fire_all (idx ∷ rest) now m = fire_all rest now (fire idx now m)

  -- The scheduler's state of a slot behind the look at it, and whether the event is due.
  pub look_at : ℤ → ℤ → Slot R → Bool × Sched R
  look_at exp_start now slot =
      if slot.sched.exhausted
      then (false, slot.sched)
      else (let (at, st) = next_fire_wall fl cw exp_start slot.event slot.sched in
          elim at [
            | none ↦ (false, record st { exhausted = true })
            | some t ↦ (if ltb_ℤ now t then false else true, st)
          ])

  -- The loop over the events: the indices of those due, from index i on, and the new slots.
  unfoldable pub collect : ℤ → ℤ → ℕ → List (Slot R) → List ℕ × List (Slot R)
  unfolding look_at
  collect exp_start now i [] = ([], [])
  collect exp_start now i (slot ∷ slots) =
      let (due, st) = look_at exp_start now slot in
      let (rest, slots') = collect exp_start now (suc i) slots in
      (if due then i ∷ rest else rest, record slot { sched = st } ∷ slots')

  -- A tick of a node that is not destroyed.
  unfoldable pub live_tick : ℤ → Manager R → Manager R
  unfolding types_over
  live_tick now m =
      let to_clear = types_over now m.active in
      let (to_fire, slots') = collect m.exp_start now 0 m.slots in
      fire_all to_fire now (clear_types to_clear (record m { slots = slots' }))

  unfoldable pub run_tick : ℤ → Manager R → Manager R
  run_tick now m = if m.destroyed then m else live_tick now m
