-- ===== src/WorldController/HwEvents/Tick/Destroyed.antt =====
-- The Destroy event of internal-components/world-controller/internal/hwevents/hwevents.go is final.
use yass_simulator.Base.{
  ℕ, suc, ◌+◌, ◌≡◌, ◌≢◌, refl, sym, ap, ◌∙◌, subst, true, false, Option, none, some, List, [], ◌∷◌,
  ◌++◌, arith, ◌==◌, if◌then◌else◌, get_elem?, contains, All, Bool-cases, inl, inr,
}
use yass_simulator.Base.Int.{ℤ}
use yass_simulator.Base.Map.{Map, lookup, insert, delete, member, lookup-insert, lookup-delete}
use yass_simulator.Base.Float.{Floats}
use yass_simulator.WorldController.HwEvents.Event.{
  EventType, network_bandwidth_reduced, network_failure, disk_full, disk_failure, destroy, type_eq,
  type_beq, type_beq_iff, Clockwork, Schedule, HardwareEvent, Sched,
}
use yass_simulator.WorldController.HwEvents.Manager.{
  ActiveFault, Effect, mark_destroyed, publish_offline, kill_targets, publish, cleared, Slot,
  Manager, do_effect, activate, deactivate, clear_found, clear_one, clear_types,
}
use yass_simulator.WorldController.HwEvents.Tick.Coherence.{active-deactivate}
use yass_simulator.WorldController.HwEvents.Tick.{
  put_sched, fire_slot, fire_at, fire, fire_all, run_tick, live_tick, collect, types_over, is_over,
  planned_end,
}

-- How often the processes of the node were killed.
unfoldable pub kills : List Effect → ℕ
kills [] = 0
kills (kill_targets ∷ xs) = suc (kills xs)
kills (x ∷ xs) = kills xs

kills-append : (xs ys : List Effect) → kills (xs ++ ys) ≡ kills xs + kills ys
unfolding kills
kills-append [] ys = omega arith
kills-append (kill_targets ∷ xs) ys = omega (arith, kills-append xs ys)
kills-append (_ ∷ xs) ys = kills-append xs ys

-- An active Destroy has no end.
abbrev IsEndless : EventType × ActiveFault → Type 0
IsEndless (typ, a) = typ ≡ destroy → a.ends_at ≡ none

-- The node is destroyed exactly if Destroy is active, no active Destroy has an end, and the
-- processes were killed once if the node is destroyed, and not at all otherwise.
pub record IsFinal {R : Type 0} (m : Manager R) : Type 0 where
  pub flag : m.destroyed ≡ member destroy m.active
  pub endless : All IsEndless m.active
  pub once : kills m.effects ≡ (if m.destroyed then 1 else 0)

All-insert :
    (typ : EventType) (a : ActiveFault) (m : Map EventType ActiveFault)
    → IsEndless (typ, a)
    → All IsEndless m
    → All IsEndless (insert typ a m)
unfolding insert
All-insert typ a [] p h = (p, tt)
All-insert typ a ((t, b) ∷ m) p h = elim (Bool-cases (type_beq t typ)) [
  | inl same ↦ rw same (p, h.1)
  | inr other ↦ rw other (h.0, All-insert typ a m p h.1)
]

All-delete :
    (typ : EventType) (m : Map EventType ActiveFault)
    → All IsEndless m
    → All IsEndless (delete typ m)
unfolding delete
All-delete typ [] h = tt
All-delete typ ((t, b) ∷ m) h = elim (Bool-cases (type_beq t typ)) [
  | inl same ↦ rw same (All-delete typ m h.1)
  | inr other ↦ rw other (h.0, All-delete typ m h.1)
]

-- An active Destroy is not among the faults that are over.
types_over-destroy :
    (now : ℤ) (m : Map EventType ActiveFault)
    → All IsEndless m
    → contains (types_over now m) destroy ≡ false
unfolding types_over is_over contains
types_over-destroy now [] h = refl
types_over-destroy now ((t, a) ∷ m) h =
    ground (arith, types_over-destroy now m h.1, h.0, type_beq_iff t destroy)

module _ {R : Type 0} where
  kills-publish :
      (x : Effect) (m : Manager R)
      → x ≢ kill_targets
      → kills (do_effect x m).effects ≡ kills m.effects
  unfolding do_effect kills
  kills-publish kill_targets m ne = absurd (ne refl)
  kills-publish _ m ne = omega (arith, kills-append m.effects _)

  kills-deactivate :
      (typ : EventType) (m : Manager R) → kills (deactivate typ m).effects ≡ kills m.effects
  unfolding deactivate kills
  kills-deactivate network_bandwidth_reduced m = refl
  kills-deactivate network_failure m = refl
  kills-deactivate disk_full m = omega (arith, kills-append m.effects _)
  kills-deactivate disk_failure m = omega (arith, kills-append m.effects _)
  kills-deactivate destroy m = refl

  kills-activate :
      (typ : EventType) (a : ActiveFault) (m : Manager R)
      → (kills (activate typ a m).effects ≡ (if typ == destroy then 1 else 0) + kills m.effects)
        × ((activate typ a m).destroyed ≡ (if typ == destroy then true else m.destroyed))
        × ((activate typ a m).active ≡ m.active)
  unfolding activate kills
  kills-activate network_bandwidth_reduced a m = (omega arith, refl, refl)
  kills-activate network_failure a m = (omega arith, refl, refl)
  kills-activate disk_full a m = (omega (arith, kills-append m.effects _), refl, refl)
  kills-activate disk_failure a m = (omega (arith, kills-append m.effects _), refl, refl)
  kills-activate destroy a m = (
    omega (
      arith,
      kills-append ((m.effects ++ mark_destroyed ∷ []) ++ kill_targets ∷ []) (publish_offline ∷ []),
      kills-append (m.effects ++ mark_destroyed ∷ []) (kill_targets ∷ []),
      kills-append m.effects (mark_destroyed ∷ []),
    ),
    refl,
    refl,
  )

  destroyed-deactivate :
      (typ : EventType) (m : Manager R) → (deactivate typ m).destroyed ≡ m.destroyed
  unfolding deactivate
  destroyed-deactivate network_bandwidth_reduced m = refl
  destroyed-deactivate _ m = refl

  clear_found-IsFinal :
      (o : Option ActiveFault) (typ : EventType) (m : Manager R)
      → typ ≢ destroy
      → IsFinal m
      → IsFinal (clear_found o typ m)
  unfolding clear_found member deactivate
  clear_found-IsFinal none typ m ne f = f
  clear_found-IsFinal (some a) typ m ne f =
      let m' : Manager R = record m { active = delete typ m.active } in
      let still : (deactivate typ m').active ≡ delete typ m.active = active-deactivate typ m' in
      record {
        flag =
            unfold do_effect in
            (destroyed-deactivate typ m'
              ∙ (ground (
                arith,
                f.flag,
                still,
                type_beq_iff typ destroy,
                lookup-delete typ destroy m.active,
              )));
        endless =
            unfold do_effect in
            subst (λ l. All IsEndless l) (sym still) (All-delete typ m.active f.endless);
        once =
            kills-publish (publish typ cleared) (deactivate typ m') (λ e. cc)
            ∙ (kills-deactivate typ m'
                ∙ (f.once ∙ ap (λ b. if b then 1 else 0) (sym (destroyed-deactivate typ m'))));
      }

  clear_types-IsFinal :
      (types : List EventType) (m : Manager R)
      → contains types destroy ≡ false
      → IsFinal m
      → IsFinal (clear_types types m)
  unfolding clear_types clear_one contains
  clear_types-IsFinal [] m none_listed f = f
  clear_types-IsFinal (typ ∷ types) m none_listed f =
      clear_types-IsFinal types (clear_one typ m)
        (ground (arith, none_listed, type_beq_iff typ destroy))
        (clear_found-IsFinal (lookup typ m.active) typ m
          (λ e. ground (arith, none_listed, type_beq_iff typ destroy, e)) f)

  activate-IsFinal :
      (typ : EventType) (a : ActiveFault) (m : Manager R)
      → lookup typ m.active ≡ none
      → IsEndless (typ, a)
      → IsFinal m
      → IsFinal (activate typ a (record m { active = insert typ a m.active }))
  unfolding member
  activate-IsFinal typ a m free endless f =
      let m' : Manager R = record m { active = insert typ a m.active } in
      let (count, marked, kept) = kills-activate typ a m' in
      record {
        flag = ground (
          arith,
          f.flag,
          marked,
          kept,
          lookup-insert typ destroy a m.active,
          type_beq_iff typ destroy,
        );
        endless =
            subst (λ l. All IsEndless l) (sym kept) (All-insert typ a m.active endless f.endless);
        once = ground (arith, f.flag, f.once, marked, count, free, type_beq_iff typ destroy);
      }

  publish-IsFinal :
      (x : Effect) (m : Manager R) → x ≢ kill_targets → IsFinal m → IsFinal (do_effect x m)
  publish-IsFinal x m ne f = record {
    flag = unfold do_effect in f.flag;
    endless = unfold do_effect in f.endless;
    once = kills-publish x m ne ∙ f.once ∙ (unfold do_effect in refl);
  }

  slots-IsFinal :
      (slots : List (Slot R)) (m : Manager R) → IsFinal m → IsFinal (record m { slots = slots })
  slots-IsFinal slots m f = record { flag = f.flag; endless = f.endless; once = f.once }

module _ {F R : Type 0} (fl : Floats F) (cw : Clockwork F R) where
  planned_end-IsEndless :
      (typ : EventType) (o : Option Schedule) (e : HardwareEvent) (st : Sched R) (now : ℤ)
      → typ ≡ destroy
      → (planned_end fl cw typ o e st now).0 ≡ none
  unfolding planned_end
  planned_end-IsEndless destroy o e st now h = refl
  planned_end-IsEndless network_bandwidth_reduced o e st now h = cc
  planned_end-IsEndless network_failure o e st now h = cc
  planned_end-IsEndless disk_full o e st now h = cc
  planned_end-IsEndless disk_failure o e st now h = cc

  fire_slot-IsFinal :
      (o : Option ActiveFault) (idx : ℕ) (slot : Slot R) (now : ℤ) (m : Manager R)
      → lookup slot.event.type m.active ≡ o
      → IsFinal m
      → IsFinal (fire_slot fl cw o idx slot now m)
  unfolding fire_slot put_sched
  fire_slot-IsFinal (some current) idx slot now m e f =
      publish-IsFinal _ _ (λ x. cc) (slots-IsFinal _ m f)
  fire_slot-IsFinal none idx slot now m e f =
      publish-IsFinal _ _ (λ x. cc)
        (activate-IsFinal slot.event.type _ _ e
          (planned_end-IsEndless slot.event.type slot.event.schedule slot.event slot.sched now)
          (slots-IsFinal _ m f))

  fire_at-IsFinal :
      (o : Option (Slot R)) (idx : ℕ) (now : ℤ) (m : Manager R)
      → IsFinal m
      → IsFinal (fire_at fl cw o idx now m)
  unfolding fire_at
  fire_at-IsFinal none idx now m f = f
  fire_at-IsFinal (some slot) idx now m f =
      fire_slot-IsFinal (lookup slot.event.type m.active) idx slot now m refl f

  fire_all-IsFinal :
      (pending : List ℕ) (now : ℤ) (m : Manager R)
      → IsFinal m
      → IsFinal (fire_all fl cw pending now m)
  unfolding fire_all fire
  fire_all-IsFinal [] now m f = f
  fire_all-IsFinal (idx ∷ rest) now m f =
      fire_all-IsFinal rest now (fire fl cw idx now m)
        (fire_at-IsFinal (get_elem? m.slots idx) idx now m f)

  live_tick-IsFinal : (now : ℤ) (m : Manager R) → IsFinal m → IsFinal (live_tick fl cw now m)
  unfolding live_tick
  live_tick-IsFinal now m f = fire_all-IsFinal (collect fl cw m.exp_start now 0 m.slots).0 now _ (
      clear_types-IsFinal (types_over now m.active) _ (types_over-destroy now m.active f.endless)
        (slots-IsFinal (collect fl cw m.exp_start now 0 m.slots).1 m f))

  -- Whatever fires and ends in a tick, the node stays destroyed exactly if Destroy is active, an
  -- active Destroy has no end, and the processes of the node have been killed once if the node is
  -- destroyed and not at all otherwise: Destroy is never cleared by a tick and never done twice.
  pub run_tick-IsFinal : (now : ℤ) (m : Manager R) → IsFinal m → IsFinal (run_tick fl cw now m)
  unfolding run_tick
  run_tick-IsFinal now m f = elim (Bool-cases m.destroyed) [
    | inl gone ↦ simp gone f
    | inr live ↦ simp live (live_tick-IsFinal now m f)
  ]
