-- ===== src/WorldController/HwEvents/Tick/Coherence.antt =====
-- The overlay that the manager asks of the traffic rules agrees with the faults that are active
-- (internal-components/world-controller/internal/hwevents/hwevents.go).
use yass_simulator.Base.{
  ℕ, ◌≡◌, refl, ap, ◌∙◌, Option, none, some, List, [], ◌∷◌, arith, ◌==◌, if◌then◌else◌, get_elem?,
  contains, Bool-cases, inl, inr,
}
use yass_simulator.Base.Int.{ℤ}
use yass_simulator.Base.Map.{
  Map, lookup, insert, delete, member, keys, contains-keys, lookup-insert, lookup-delete,
}
use yass_simulator.Base.Float.{Floats}
use yass_simulator.WorldController.Networking.Overlay.{Overlay, clear_overlay}
use yass_simulator.WorldController.HwEvents.Event.{
  EventType, network_bandwidth_reduced, network_failure, type_eq, type_beq_iff, Clockwork,
}
use yass_simulator.WorldController.HwEvents.Manager.{
  ActiveFault, Slot, Manager, is_black_hole, external_cap, reduction_percent, do_effect, activate,
  deactivate, clear_found, clear_one, clear_types, clear_all,
}
use yass_simulator.WorldController.HwEvents.Tick.{
  fire_slot, fire_at, fire, fire_all, run_tick, live_tick, collect, types_over,
}

-- The overlay of the active faults: the parameters of the bandwidth fault, if there is one, and a
-- black hole exactly if there is a network failure.
unfoldable pub overlay_of : Map EventType ActiveFault → Overlay
overlay_of a = record {
  external_cap_bps = external_cap a;
  reduction_pct = reduction_percent a;
  black_hole = is_black_hole a;
}

abbrev pub IsCoherent : {R : Type 0} → Manager R → Type 0
IsCoherent m = m.overlay ≡ overlay_of m.active

module _ {R : Type 0} where
  activate-IsCoherent :
      (typ : EventType) (a : ActiveFault) (m : Manager R)
      → IsCoherent m
      → IsCoherent (activate typ a (record m { active = insert typ a m.active }))
  unfolding activate overlay_of is_black_hole external_cap reduction_percent member
  activate-IsCoherent network_bandwidth_reduced a m c = ground (
    arith,
    lookup-insert network_bandwidth_reduced network_bandwidth_reduced a m.active,
    lookup-insert network_bandwidth_reduced network_failure a m.active,
  )
  activate-IsCoherent typ a m c = ground (
    arith,
    lookup-insert typ network_bandwidth_reduced a m.active,
    lookup-insert typ network_failure a m.active,
  )

  active-activate :
      (typ : EventType) (a : ActiveFault) (m : Manager R) → (activate typ a m).active ≡ m.active
  unfolding activate
  active-activate network_bandwidth_reduced a m = refl
  active-activate _ a m = refl

  deactivate-IsCoherent :
      (typ : EventType) (m : Manager R)
      → IsCoherent m
      → IsCoherent (deactivate typ (record m { active = delete typ m.active }))
  unfolding deactivate overlay_of is_black_hole external_cap reduction_percent member
  deactivate-IsCoherent network_bandwidth_reduced m c = ground (
    arith,
    lookup-delete network_bandwidth_reduced network_bandwidth_reduced m.active,
    lookup-delete network_bandwidth_reduced network_failure m.active,
  )
  deactivate-IsCoherent typ m c = ground (
    arith,
    lookup-delete typ network_bandwidth_reduced m.active,
    lookup-delete typ network_failure m.active,
  )

  pub active-deactivate : (typ : EventType) (m : Manager R) → (deactivate typ m).active ≡ m.active
  unfolding deactivate
  active-deactivate network_bandwidth_reduced m = refl
  active-deactivate _ m = refl

  clear_found-IsCoherent :
      (o : Option ActiveFault) (typ : EventType) (m : Manager R)
      → IsCoherent m
      → IsCoherent (clear_found o typ m)
  unfolding clear_found do_effect
  clear_found-IsCoherent none typ m c = c
  clear_found-IsCoherent (some a) typ m c = deactivate-IsCoherent typ m c

  pub clear_types-IsCoherent :
      (types : List EventType) (m : Manager R) → IsCoherent m → IsCoherent (clear_types types m)
  unfolding clear_types clear_one
  clear_types-IsCoherent [] m c = c
  clear_types-IsCoherent (typ ∷ types) m c =
      clear_types-IsCoherent types (clear_one typ m)
        (clear_found-IsCoherent (lookup typ m.active) typ m c)

module _ {F R : Type 0} (fl : Floats F) (cw : Clockwork F R) where
  fire_slot-IsCoherent :
      (o : Option ActiveFault) (idx : ℕ) (slot : Slot R) (now : ℤ) (m : Manager R)
      → IsCoherent m
      → IsCoherent (fire_slot fl cw o idx slot now m)
  unfolding fire_slot do_effect
  fire_slot-IsCoherent (some a) idx slot now m c = c
  fire_slot-IsCoherent none idx slot now m c = activate-IsCoherent slot.event.type _ _ c

  fire_at-IsCoherent :
      (o : Option (Slot R)) (idx : ℕ) (now : ℤ) (m : Manager R)
      → IsCoherent m
      → IsCoherent (fire_at fl cw o idx now m)
  unfolding fire_at
  fire_at-IsCoherent none idx now m c = c
  fire_at-IsCoherent (some slot) idx now m c =
      fire_slot-IsCoherent (lookup slot.event.type m.active) idx slot now m c

  fire_all-IsCoherent :
      (indices : List ℕ) (now : ℤ) (m : Manager R)
      → IsCoherent m
      → IsCoherent (fire_all fl cw indices now m)
  unfolding fire_all fire
  fire_all-IsCoherent [] now m c = c
  fire_all-IsCoherent (idx ∷ rest) now m c =
      fire_all-IsCoherent rest now (fire fl cw idx now m)
        (fire_at-IsCoherent (get_elem? m.slots idx) idx now m c)

  live_tick-IsCoherent :
      (now : ℤ) (m : Manager R) → IsCoherent m → IsCoherent (live_tick fl cw now m)
  unfolding live_tick
  live_tick-IsCoherent now m c =
      fire_all-IsCoherent (collect fl cw m.exp_start now 0 m.slots).0 now _ (
        clear_types-IsCoherent (types_over now m.active)
          (record m { slots = (collect fl cw m.exp_start now 0 m.slots).1 }) c)

  -- A tick keeps the overlay that was asked for last in agreement with the active faults, whatever
  -- fires and whatever ends: the cap and the reduction are those of the bandwidth fault, or 0, and
  -- there is a black hole exactly if there is a network failure.
  pub run_tick-IsCoherent :
      (now : ℤ) (m : Manager R) → IsCoherent m → IsCoherent (run_tick fl cw now m)
  unfolding run_tick
  run_tick-IsCoherent now m c = elim (Bool-cases m.destroyed) [
    | inl gone ↦ simp gone c
    | inr live ↦ simp live (live_tick-IsCoherent now m c)
  ]

overlay_of-none :
    (a : Map EventType ActiveFault)
    → lookup network_bandwidth_reduced a ≡ none
    → lookup network_failure a ≡ none
    → overlay_of a ≡ clear_overlay
unfolding overlay_of is_black_hole external_cap reduction_percent member
overlay_of-none a e f = ground arith

module _ {R : Type 0} where
  lookup-clear_found :
      (o : Option ActiveFault) (typ other : EventType) (m : Manager R)
      → lookup typ m.active ≡ o
      → lookup other (clear_found o typ m).active
        ≡ (if typ == other then none else lookup other m.active)
  unfolding clear_found do_effect
  lookup-clear_found none typ other m e = ground (arith, type_beq_iff typ other)
  lookup-clear_found (some a) typ other m e =
      ap (lookup other) (active-deactivate typ (record m { active = delete typ m.active }))
      ∙ lookup-delete typ other m.active

  pub lookup-clear_types :
      (types : List EventType) (other : EventType) (m : Manager R)
      → lookup other (clear_types types m).active
        ≡ (if contains types other then none else lookup other m.active)
  unfolding clear_types clear_one contains
  lookup-clear_types [] other m = refl
  lookup-clear_types (typ ∷ types) other m = ground (
    arith,
    lookup-clear_types types other (clear_one typ m),
    lookup-clear_found (lookup typ m.active) typ other m refl,
  )

  -- At the end of the experiment, when all faults are cleared, no fault is active and the traffic
  -- rules are left without an overlay, if the overlay agreed with the faults before.
  pub clear_all_lem :
      (m : Manager R)
      → IsCoherent m
      → ((typ : EventType) → lookup typ (clear_all m).active ≡ none)
        × ((clear_all m).overlay ≡ clear_overlay)
  unfolding clear_all
  clear_all_lem m c =
      let gone = λ (typ : EventType).
        let e : lookup typ (clear_types (keys m.active) m).active ≡ none =
          unfold member in
          ground (arith, lookup-clear_types (keys m.active) typ m, contains-keys typ m.active) in
        e in
      (
        gone,
        clear_types-IsCoherent (keys m.active) m c
            ∙ overlay_of-none (clear_types (keys m.active) m).active
                (gone network_bandwidth_reduced) (gone network_failure),
      )
