-- ===== src/Tests/Hardware.antt =====
-- The theorems on internal-components/world-controller/internal/hwevents/hwevents.go at concrete
-- inputs.
use yass_simulator.Base.{
  ℕ, zero, suc, subst, ◌≡◌, refl, true, false, none, some, [], ◌∷◌, arith, ◌==◌, string_eq, nat_eq,
  if◌then◌else◌, get_elem?,
}
use mathlib.Core.Option.{some-injective}
use yass_simulator.Base.Int.{ℤ, pos, ◌+ℤ◌, quot}
use yass_simulator.Base.Map.{lookup, insert, member}
use yass_simulator.Tests.Whole.{whole}
use yass_simulator.WorldController.Networking.Overlay.{clear_overlay}
use yass_simulator.WorldController.HwEvents.Event.{
  network_failure, destroy, type_eq, Schedule, Sched, Clockwork, next_fire_wall, is_used_up,
}
use yass_simulator.WorldController.HwEvents.Manager.{
  is_black_hole, external_cap, reduction_percent, given, Slot, Manager, clear_types, do_effect,
  activate,
}
use yass_simulator.WorldController.HwEvents.Tick.{
  run_tick, live_tick, fire_all, collect, fire, advance_next,
}
use yass_simulator.WorldController.HwEvents.Tick.Coherence.{
  IsCoherent, overlay_of, run_tick-IsCoherent,
}
use yass_simulator.WorldController.HwEvents.Tick.Counts.{IsWithin}
use yass_simulator.WorldController.HwEvents.Tick.Occurrences.{run_tick-IsWithin}
use yass_simulator.WorldController.HwEvents.Tick.Destroyed.{kills, IsFinal, run_tick-IsFinal}

-- Two durations can be read, and the random numbers are all 0.
abbrev steady : Clockwork ℤ ℕ
steady = record {
  parse_duration =
      λ text. if text == "10s" then some (pos 10) else if text == "" then none else some (pos 0);
  float64 = λ r. (pos 0, r);
}

abbrev every_ten : Schedule
every_ten = record {
  interval_mean = "10s";
  interval_jitter_percent = pos 0;
  duration_mean = "10s";
  duration_jitter_percent = pos 0;
  max_occurrences = pos 3;
}

abbrev fresh : Sched ℕ
fresh = record { fired = 0; next_wall_fire = none; rng = 0; exhausted = false }

-- A network failure that comes back, and an end of the node, both at the start.
abbrev failing : Slot ℕ
failing = record {
  event = record {
    name = "failure";
    type = network_failure;
    start_offset = "0s";
    duration = "";
    schedule = some every_ten;
    params = none;
  };
  sched = fresh;
}

abbrev ending : Slot ℕ
ending = record {
  event = record {
    name = "end";
    type = destroy;
    start_offset = "0s";
    duration = "";
    schedule = none;
    params = none;
  };
  sched = fresh;
}

abbrev two_events : Manager ℕ
two_events = record {
  slots = failing ∷ ending ∷ [];
  exp_start = pos 100;
  active = [];
  destroyed = false;
  overlay = clear_overlay;
  effects = [];
}

two_events-IsCoherent : IsCoherent two_events
unfolding overlay_of is_black_hole external_cap reduction_percent member lookup
two_events-IsCoherent = refl

run_tick-IsCoherent_example : IsCoherent (run_tick whole steady (pos 105) two_events)
run_tick-IsCoherent_example =
    run_tick-IsCoherent whole steady (pos 105) two_events two_events-IsCoherent

-- The failure is active.
abbrev one_fault : Manager ℕ
one_fault = record two_events {
  active =
      (
        network_failure,
        record {
          name = given "failure";
          ends_at = some (pos 115);
          override = pos 0;
          reduction_pct = pos 0;
        },
      )
      ∷ [];
  overlay = record clear_overlay { black_hole = true };
}

one_fault-IsCoherent : IsCoherent one_fault
unfolding overlay_of is_black_hole external_cap reduction_percent member lookup
one_fault-IsCoherent = refl

-- No event has fired yet.
two_events-IsWithin :
    (j : ℕ) (slot : Slot ℕ)
    → get_elem? two_events.slots j ≡ some slot
    → IsWithin slot.event.schedule slot.sched.fired
two_events-IsWithin zero slot h =
    subst (λ (s : Slot ℕ). IsWithin s.event.schedule s.sched.fired) (some-injective _ _ h)
      (λ p. omega arith)
two_events-IsWithin (suc zero) slot h =
    subst (λ (s : Slot ℕ). IsWithin s.event.schedule s.sched.fired) (some-injective _ _ h)
      (omega arith)
two_events-IsWithin (suc (suc j)) slot h = cc

-- The failure has fired once, and was due again.
abbrev fired_failing : Slot ℕ
fired_failing = record failing {
  sched = record fresh { fired = 1; next_wall_fire = some (pos 115) };
}

failing_fired : get_elem? (run_tick whole steady (pos 105) two_events).slots 0 ≡ some fired_failing
unfolding run_tick live_tick fire_all collect next_fire_wall is_used_up ◌+ℤ◌ fire clear_types lookup
    do_effect activate insert advance_next quot
failing_fired = refl

run_tick-IsWithin_example : IsWithin (some every_ten) 1
run_tick-IsWithin_example =
    run_tick-IsWithin whole steady (pos 105) two_events two_events-IsWithin 0 fired_failing
      failing_fired

two_events-IsFinal : IsFinal two_events
unfolding member lookup kills
two_events-IsFinal = record { flag = refl; endless = tt; once = refl }

run_tick-IsFinal_example : IsFinal (run_tick whole steady (pos 105) two_events)
run_tick-IsFinal_example = run_tick-IsFinal whole steady (pos 105) two_events two_events-IsFinal
