-- ===== src/WorldController/HwEvents/Tick/Counts.antt =====
-- What the steps of a tick do to the counts of occurrences and to the slots
-- (internal-components/world-controller/internal/hwevents/hwevents.go).
use yass_simulator.Base.{
  ℕ, ◌+◌, ◌≤◌, ◌≡◌, ◌≢◌, refl, ◌∙◌, true, false, Option, none, some, List, [], ◌∷◌, arith, nat_eq,
  Bool-cases, Option-cases, inl, inr,
}
use yass_simulator.Base.Int.{ℤ, pos, ◌+ℤ◌, ◌≤ℤ◌, ltb_ℤ}
use yass_simulator.Base.Map.{lookup}
use yass_simulator.Base.Float.{Floats}
use yass_simulator.WorldController.HwEvents.Event.{
  EventType, network_bandwidth_reduced, destroy, type_eq, Schedule, HardwareEvent, Sched, Clockwork,
  is_used_up, next_fire_wall, next_from, next_recurring, planned_or, plan_from,
}
use yass_simulator.WorldController.HwEvents.Manager.{
  ActiveFault, Slot, Manager, do_effect, activate, deactivate, clear_found, clear_one, clear_types,
}
use yass_simulator.WorldController.HwEvents.Tick.{planned_end, plan_next, advance_next, look_at}

-- A number of occurrences that keeps to the event: at most one without a schedule, and with one at
-- most its MaxOccurrences, if that is positive.
abbrev pub IsWithin : Option Schedule → ℕ → Type 0
IsWithin none n = n ≤ 1
IsWithin (some sch) n = ltb_ℤ (pos 0) sch.max_occurrences ≡ true → pos n ≤ℤ sch.max_occurrences

-- One more occurrence keeps to the event.
abbrev pub HasRoom : Option Schedule → ℕ → Type 0
HasRoom none n = n ≡ 0
HasRoom (some sch) n = is_used_up sch n ≡ false

pub HasRoom-IsWithin : (o : Option Schedule) (n : ℕ) → HasRoom o n → IsWithin o (n + 1)
unfolding is_used_up
HasRoom-IsWithin none n h = omega arith
HasRoom-IsWithin (some sch) n h = λ p. ground arith

module _ {F R : Type 0} (fl : Floats F) (cw : Clockwork F R) where
  fired-next_from :
      (first : ℤ) (o : Option Schedule) (st : Sched R)
      → ((next_from fl cw first o st).1.fired ≡ st.fired)
        × ((next_from fl cw first o st).0 ≢ none → HasRoom o st.fired)
  unfolding next_from next_recurring planned_or plan_from
  fired-next_from first none st = (ground arith, λ h. ground arith)
  fired-next_from first (some sch) st = (ground arith, λ h. ground arith)

  pub fired-next_fire_wall :
      (exp_start : ℤ) (e : HardwareEvent) (st : Sched R)
      → ((next_fire_wall fl cw exp_start e st).1.fired ≡ st.fired)
        × ((next_fire_wall fl cw exp_start e st).0 ≢ none → HasRoom e.schedule st.fired)
  unfolding next_fire_wall
  fired-next_fire_wall exp_start e st = elim (Option-cases (cw.parse_duration e.start_offset)) [
    | inl bad ↦ rw (bad, next_fire_wall) (refl, λ h. absurd (h refl))
    | inr (off, ok) ↦ rw (ok, next_fire_wall) (fired-next_from (exp_start +ℤ off) e.schedule st)
  ]

  -- Looking at a slot does not count, and an event that is due has room.
  pub fired-look_at :
      (exp_start now : ℤ) (slot : Slot R)
      → ((look_at fl cw exp_start now slot).1.fired ≡ slot.sched.fired)
        × ((look_at fl cw exp_start now slot).0 ≡ true
            → HasRoom slot.event.schedule slot.sched.fired)
  unfolding look_at
  fired-look_at exp_start now slot = elim (Bool-cases slot.sched.exhausted) [
    | inl out ↦ simp out (refl, λ h. cc)
    | inr in_use ↦ simp in_use (
        let (same, room) = fired-next_fire_wall exp_start slot.event slot.sched in
        elim (Option-cases (next_fire_wall fl cw exp_start slot.event slot.sched).0) [
          | inl over ↦ rw over (same, λ h. cc)
          | inr (t, e) ↦ rw e (same, λ h. room (λ n. cc))
        ])
  ]

  pub fired-advance_next :
      (o : Option Schedule) (st : Sched R) (now : ℤ)
      → (advance_next fl cw o st now).fired ≡ st.fired
  unfolding advance_next plan_next
  fired-advance_next none st now = refl
  fired-advance_next (some sch) st now = ground arith

  pub fired-planned_end :
      (typ : EventType) (o : Option Schedule) (e : HardwareEvent) (st : Sched R) (now : ℤ)
      → (planned_end fl cw typ o e st now).1.fired ≡ st.fired
  unfolding planned_end
  fired-planned_end destroy o e st now = refl
  fired-planned_end typ none e st now = ground arith
  fired-planned_end typ (some sch) e st now = ground arith

module _ {R : Type 0} where
  pub slots-activate :
      (typ : EventType) (a : ActiveFault) (m : Manager R) → (activate typ a m).slots ≡ m.slots
  unfolding activate
  slots-activate network_bandwidth_reduced a m = refl
  slots-activate _ a m = refl

  slots-deactivate : (typ : EventType) (m : Manager R) → (deactivate typ m).slots ≡ m.slots
  unfolding deactivate
  slots-deactivate network_bandwidth_reduced m = refl
  slots-deactivate _ m = refl

  slots-clear_found :
      (o : Option ActiveFault) (typ : EventType) (m : Manager R)
      → (clear_found o typ m).slots ≡ m.slots
  unfolding clear_found do_effect
  slots-clear_found none typ m = refl
  slots-clear_found (some a) typ m = slots-deactivate typ _

  pub slots-clear_types :
      (types : List EventType) (m : Manager R) → (clear_types types m).slots ≡ m.slots
  unfolding clear_types clear_one
  slots-clear_types [] m = refl
  slots-clear_types (typ ∷ types) m =
      slots-clear_types types (clear_one typ m) ∙ slots-clear_found (lookup typ m.active) typ m
