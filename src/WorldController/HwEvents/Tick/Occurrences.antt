-- ===== src/WorldController/HwEvents/Tick/Occurrences.antt =====
-- How often an event fires: `nextFireWall`, `fire` and `runTick` of
-- internal-components/world-controller/internal/hwevents/hwevents.go.
use yass_simulator.Base.{
  ℕ, zero, suc, ◌+◌, ◌≤◌, ◌≡◌, refl, sym, ap, ◌∙◌, subst, true, false, Option, none, some, List, [],
  ◌∷◌, arith, nat_eq, nat_beq, nat_beq_iff, get_elem?-set, if◌then◌else◌, get_elem?, set, contains,
  Distinct, Bool-cases, inl, inr,
}
use mathlib.Core.Option.{some-injective}
use native.Mathlib.Nat.{zero-add}
use yass_simulator.Base.Int.{ℤ}
use yass_simulator.Base.Map.{lookup}
use yass_simulator.Base.Float.{Floats}
use yass_simulator.WorldController.HwEvents.Event.{type_eq, Schedule, HardwareEvent, Clockwork}
use yass_simulator.WorldController.HwEvents.Manager.{
  ActiveFault, Slot, Manager, do_effect, clear_types,
}
use yass_simulator.WorldController.HwEvents.Tick.{
  put_sched, counted, look_at, fire_slot, fire_at, fire, fire_all, run_tick, live_tick, collect,
  types_over,
}
use yass_simulator.WorldController.HwEvents.Tick.Counts.{
  IsWithin, HasRoom, HasRoom-IsWithin, fired-look_at, fired-advance_next, fired-planned_end,
  slots-activate, slots-clear_types,
}

-- The slot keeps to its event, and if it is among the indices still to fire, it has room.
abbrev IsFit : {R : Type 0} → List ℕ → List (Slot R) → Type 0
IsFit {R} pending slots =
    (j : ℕ) (slot : Slot R)
    → get_elem? slots j ≡ some slot
    → IsWithin slot.event.schedule slot.sched.fired
      × (contains pending j ≡ true → HasRoom slot.event.schedule slot.sched.fired)

module _ {F R : Type 0} (fl : Floats F) (cw : Clockwork F R) where
  -- A call of `fire` rewrites one slot, whose count of occurrences goes up by one.
  record Counted (idx : ℕ) (slot : Slot R) (before after : List (Slot R)) : Type 0 where
    new_slot : Slot R
    rewritten : after ≡ set before idx new_slot
    same_event : new_slot.event ≡ slot.event
    one_more : new_slot.sched.fired ≡ slot.sched.fired + 1

  fire_slot-Counted :
      (o : Option ActiveFault) (idx : ℕ) (slot : Slot R) (now : ℤ) (m : Manager R)
      → Counted idx slot m.slots (fire_slot fl cw o idx slot now m).slots
  unfolding fire_slot do_effect put_sched counted
  fire_slot-Counted (some a) idx slot now m = record {
    new_slot = _;
    rewritten = refl;
    same_event = refl;
    one_more = fired-advance_next fl cw slot.event.schedule _ now;
  }
  fire_slot-Counted none idx slot now m = record {
    new_slot = _;
    rewritten = slots-activate slot.event.type _ _;
    same_event = refl;
    one_more =
        fired-advance_next fl cw slot.event.schedule _ now
        ∙ ap (λ (n : ℕ). n + 1)
            (fired-planned_end fl cw slot.event.type slot.event.schedule slot.event slot.sched now);
  }

  set-IsFit :
      (idx : ℕ) (rest : List ℕ) (slot : Slot R) (before after : List (Slot R))
      → Distinct (idx ∷ rest)
      → get_elem? before idx ≡ some slot
      → Counted idx slot before after
      → IsFit (idx ∷ rest) before
      → IsFit rest after
  unfolding contains
  set-IsFit idx rest slot before after d e c fit j found h =
      let read : get_elem? after j
          ≡ (if nat_beq idx j then some c.new_slot else get_elem? before j) =
        ap (λ (l : List (Slot R)). get_elem? l j) c.rewritten
        ∙ get_elem?-set before idx j c.new_slot slot e in
      elim (Bool-cases (nat_beq idx j)) [
        | inl same ↦
            let is_new : c.new_slot ≡ found = ground (arith, read, h, same) in
            let (within, room) = fit idx slot e in
            (
              subst (λ (s : Slot R). IsWithin s.event.schedule s.sched.fired) is_new
                  (rw (c.one_more) (
                    subst (λ (ev : HardwareEvent). IsWithin ev.schedule (slot.sched.fired + 1))
                      (sym c.same_event)
                      (HasRoom-IsWithin slot.event.schedule slot.sched.fired
                        (room (ground (arith, nat_beq_iff idx idx)))))),
              λ listed. absurd (ground (arith, d.0, listed, nat_beq_iff idx j, same)),
            )
        | inr other ↦
            let (within, room) = fit j found (ground (arith, read, h, other)) in
            (within, λ listed. room (ground (arith, listed)))
      ]

  fire_at-IsFit :
      (o : Option (Slot R)) (idx : ℕ) (rest : List ℕ) (now : ℤ) (m : Manager R)
      → Distinct (idx ∷ rest)
      → get_elem? m.slots idx ≡ o
      → IsFit (idx ∷ rest) m.slots
      → IsFit rest (fire_at fl cw o idx now m).slots
  unfolding fire_at contains
  fire_at-IsFit none idx rest now m d e fit j slot h =
      let (within, room) = fit j slot h in (within, λ c. room (ground (arith, c)))
  fire_at-IsFit (some slot) idx rest now m d e fit j found h =
      set-IsFit idx rest slot m.slots _ d e
        (fire_slot-Counted (lookup slot.event.type m.active) idx slot now m) fit j found h

  fire_all-IsFit :
      (pending : List ℕ) (now : ℤ) (m : Manager R)
      → Distinct pending
      → IsFit pending m.slots
      → IsFit [] (fire_all fl cw pending now m).slots
  unfolding fire_all fire
  fire_all-IsFit [] now m d fit = fit
  fire_all-IsFit (idx ∷ rest) now m d fit =
      fire_all-IsFit rest now (fire fl cw idx now m) d.1
        (fire_at-IsFit (get_elem? m.slots idx) idx rest now m d refl fit)

  -- The indices that `collect` gives from i on are at least i, and each stands once.
  collect_indices :
      (exp_start now : ℤ) (i : ℕ) (slots : List (Slot R))
      → let js = (collect fl cw exp_start now i slots).0 in
        Distinct js × ((x : ℕ) → contains js x ≡ true → i ≤ x)
  unfolding collect contains
  collect_indices exp_start now i [] = (tt, λ x h. cc)
  collect_indices exp_start now i (slot ∷ slots) =
      let (d, low) = collect_indices exp_start now (suc i) slots in
      let rest = (collect fl cw exp_start now (suc i) slots).0 in
      let fresh : contains rest i ≡ false = elim (Bool-cases (contains rest i)) [
        | inl listed ↦ absurd (omega (arith, low i listed))
        | inr absent ↦ absent
      ] in
      elim (Bool-cases (look_at fl cw exp_start now slot).0) [
        | inl due ↦ simp due (
          (fresh, d),
          λ x h. elim (Bool-cases (nat_beq i x)) [
            | inl same ↦ ground (arith, same)
            | inr other ↦ omega (arith, low x (ground (arith, other, h)))
          ],
        )
        | inr not_due ↦ simp not_due (d, λ x h. omega (arith, low x h))
      ]

  collect-IsFit :
      (exp_start now : ℤ) (i : ℕ) (slots : List (Slot R)) (j : ℕ) (slot : Slot R)
      → IsFit [] slots
      → let (js, slots') = collect fl cw exp_start now i slots in
        get_elem? slots' j ≡ some slot
        → IsWithin slot.event.schedule slot.sched.fired
          × (contains js (i + j) ≡ true → HasRoom slot.event.schedule slot.sched.fired)
  unfolding collect contains
  collect-IsFit exp_start now i [] j slot fit h = cc
  collect-IsFit exp_start now i (s ∷ slots) zero slot fit h =
      let looked = look_at fl cw exp_start now s in
      let is_slot : record s { sched = looked.1 } ≡ slot = some-injective _ _ h in
      let (same, room) = fired-look_at fl cw exp_start now s in
      let (d, low) = collect_indices exp_start now (suc i) slots in
      let carry = λ (P : Option Schedule → ℕ → Type 0) (p : P s.event.schedule s.sched.fired).
        let q : P slot.event.schedule slot.sched.fired =
          subst (λ (t : Slot R). P t.event.schedule t.sched.fired) is_slot
            (subst (λ n. P s.event.schedule n) (sym same) p) in
        q in
      (
        carry IsWithin (fit zero s refl).0,
        elim (Bool-cases looked.0) [
          | inl due ↦ λ _. carry HasRoom (room due)
          | inr not_due ↦ simp not_due (λ listed. absurd (omega (arith, low (i + 0) listed)))
        ],
      )
  collect-IsFit exp_start now i (s ∷ slots) (suc j) slot fit h =
      let (within, room) =
        collect-IsFit exp_start now (suc i) slots j slot (λ k t e. fit (suc k) t e) h in
      let here : i + suc j ≡ suc i + j = omega arith in
      (
        within,
        elim (Bool-cases (look_at fl cw exp_start now s).0) [
          | inl due ↦ simp due (λ listed. room (rw (← here) (ground (arith, listed))))
          | inr not_due ↦ simp not_due (λ listed. room (rw (← here) listed))
        ],
      )

  live_tick-IsFit :
      (now : ℤ) (m : Manager R) → IsFit [] m.slots → IsFit [] (live_tick fl cw now m).slots
  unfolding live_tick
  live_tick-IsFit now m fit =
      let looked = collect fl cw m.exp_start now 0 m.slots in
      let pending = looked.0 in
      let cleared = clear_types (types_over now m.active) (record m { slots = looked.1 }) in
      let kept : cleared.slots ≡ looked.1 =
        slots-clear_types (types_over now m.active) (record m { slots = looked.1 }) in
      fire_all-IsFit pending now cleared (collect_indices m.exp_start now 0 m.slots).0 (λ j slot h.
        let found : get_elem? looked.1 j ≡ some slot =
          sym (ap (λ (l : List (Slot R)). get_elem? l j) kept) ∙ h in
        let (within, room) = collect-IsFit m.exp_start now 0 m.slots j slot fit found in
        (within, λ listed. room (rw zero-add listed)))

  -- A tick keeps every event within its number of occurrences, those dropped for an overlap
  -- included: at most one for an event without a schedule, and for one with a schedule at most its
  -- MaxOccurrences, if that is positive.
  pub run_tick-IsWithin :
      (now : ℤ) (m : Manager R)
      → ((j : ℕ) (slot : Slot R)
          → get_elem? m.slots j ≡ some slot
          → IsWithin slot.event.schedule slot.sched.fired)
      → (j : ℕ) (slot : Slot R) → get_elem? (run_tick fl cw now m).slots j ≡ some slot
      → IsWithin slot.event.schedule slot.sched.fired
  unfolding run_tick contains
  run_tick-IsWithin now m fit j slot = elim (Bool-cases m.destroyed) [
    | inl gone ↦ simp gone (fit j slot)
    | inr live ↦ simp live (λ h. (live_tick-IsFit now m (λ i s e. (fit i s e, λ c. cc)) j slot h).0)
  ]
