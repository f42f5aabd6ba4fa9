-- ===== src/WorldController/HwEvents/Event.antt =====
-- The events of yass-operator/api/v1/hardware_event_types.go, and when they fire next:
-- `nextFireWall` and `jitter` of
-- internal-components/world-controller/internal/hwevents/hwevents.go.
use yass_simulator.Base.{
  ℕ, String, ◌≡◌, ◌↔◌, Bool, true, false, ◌&&◌, Option, none, some, Comparable, ◌==◌, nat_eq, arith,
  if◌then◌else◌,
}
use yass_simulator.Base.Int.{ℤ, pos, ◌+ℤ◌, ltb_ℤ, leb_ℤ}
use yass_simulator.Base.Float.{Floats}

pub data EventType : Type 0 where
  network_bandwidth_reduced network_failure disk_full disk_failure destroy : EventType

abbrev pub type_beq : EventType → EventType → Bool
type_beq network_bandwidth_reduced network_bandwidth_reduced = true
type_beq network_failure network_failure = true
type_beq disk_full disk_full = true
type_beq disk_failure disk_failure = true
type_beq destroy destroy = true
type_beq _ _ = false

pub type_beq_iff : (a b : EventType) → (type_beq a b ≡ true) ↔ (a ≡ b)
type_beq_iff a b = ground arith

instance abbrev pub type_eq : Comparable EventType
type_eq = record { test = type_beq; test_iff = type_beq_iff }

pub record Schedule : Type 0 where
  pub interval_mean : String
  pub interval_jitter_percent : ℤ
  pub duration_mean : String
  pub duration_jitter_percent : ℤ
  pub max_occurrences : ℤ

pub record BandwidthParams : Type 0 where
  pub cap_bits_per_sec : ℤ
  pub reduction_percent : ℤ

-- HardwareEventParams has one field, which may be missing, and is itself optional.
pub record HardwareEvent : Type 0 where
  pub name : String
  pub type : EventType
  pub start_offset : String
  pub duration : String
  pub schedule : Option Schedule
  pub params : Option (Option BandwidthParams)

-- eventSchedState. Instants are integers, in nanoseconds; `none` is the zero time.
pub record Sched (R : Type 0) : Type 0 where
  pub fired : ℕ
  pub next_wall_fire : Option ℤ
  pub rng : R
  pub exhausted : Bool

-- time.ParseDuration, and a source of random numbers: rand.Float64.
pub record Clockwork (F R : Type 0) : Type 0 where
  pub parse_duration : String → Option ℤ
  pub float64 : R → F × R

-- `MaxOccurrences > 0 && fired >= MaxOccurrences`
unfoldable pub is_used_up : Schedule → ℕ → Bool
is_used_up sch fired = ltb_ℤ (pos 0) sch.max_occurrences && leb_ℤ sch.max_occurrences (pos fired)

module _ {F R : Type 0} (fl : Floats F) (cw : Clockwork F R) where
  unfoldable pub percent : ℤ → F
  percent p = fl.div (fl.of_int p) (fl.of_int (pos 100))

  -- `if f < 0 { f = 0 }`
  at_least_zero : F → F
  at_least_zero f = if fl.lt f (fl.of_int (pos 0)) then fl.of_int (pos 0) else f

  unfoldable pub jitter : R → ℤ → F → ℤ × R
  unfolding at_least_zero
  jitter rng mean frac =
      if fl.le frac (fl.of_int (pos 0))
      then (mean, rng)
      else (let (x, rng') = cw.float64 rng in
          let one = fl.of_int (pos 1) in
          let f = fl.add one (fl.mul (fl.sub (fl.mul x (fl.of_int (pos 2))) one) frac) in
          (fl.to_int64 (fl.mul (fl.of_int mean) (at_least_zero f)), rng'))

  -- The last lines of nextFireWall, where no next instant is planned yet.
  unfoldable pub plan_from : ℤ → Option ℤ → Schedule → Sched R → Option ℤ × Sched R
  unfolding percent jitter
  plan_from first none sch st = (none, st)
  plan_from first (some mean) sch st =
      let (delta, rng') = jitter st.rng mean (percent sch.interval_jitter_percent) in
      let at = first +ℤ delta in (some at, record st { rng = rng'; next_wall_fire = some at })

  unfoldable pub planned_or : Option ℤ → ℤ → Schedule → Sched R → Option ℤ × Sched R
  unfolding plan_from
  planned_or (some at) first sch st = (some at, st)
  planned_or none first sch st = plan_from first (cw.parse_duration sch.interval_mean) sch st

  unfoldable pub next_recurring : ℤ → Schedule → Sched R → Option ℤ × Sched R
  unfolding planned_or
  next_recurring first sch st =
      if is_used_up sch st.fired
      then (none, st)
      else if st.fired == 0
      then (some first, st)
      else planned_or st.next_wall_fire first sch st

  unfoldable pub next_from : ℤ → Option Schedule → Sched R → Option ℤ × Sched R
  unfolding next_recurring
  next_from first none st = if st.fired == 0 then (some first, st) else (none, st)
  next_from first (some sch) st = next_recurring first sch st

  -- When the event fires next; `none` if it is exhausted.
  unfoldable pub next_fire_wall : ℤ → HardwareEvent → Sched R → Option ℤ × Sched R
  unfolding next_from
  next_fire_wall exp_start e st = elim (cw.parse_duration e.start_offset) [
    | none ↦ (none, st)
    | some off ↦ next_from (exp_start +ℤ off) e.schedule st
  ]
