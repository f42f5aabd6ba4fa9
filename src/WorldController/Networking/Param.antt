-- ===== src/WorldController/Networking/Param.antt =====
-- `NetworkParam` of internal-components/world-controller/internal/networking/networking.go.
use yass_simulator.Base.{String, Bool, true, false, not, ◌||◌, if◌then◌else◌}
use yass_simulator.Base.Int.{ℤ, pos, ◌-ℤ◌, leb_ℤ, int64}
use yass_simulator.Base.Float.{Floats}

-- The loss is in percent, the delay in milliseconds, the bandwidth (int64) in bits per second.
pub record NetworkParam (F : Type 0) : Type 0 where
  pub to_ip : String
  pub package_loss : F
  pub package_delay : F
  pub bandwidth : ℤ

-- FsNodeUpdateNetworkParamEntry, the message, as far as this component reads it.
pub record ParamEntry (F : Type 0) : Type 0 where
  pub ip : String
  pub entry_loss : F
  pub entry_delay : F
  pub entry_bandwidth : F

-- `!(a != b)`
abbrev same : Bool → Bool → Bool
same true b = b
same false b = not b

module _ {F : Type 0} (fl : Floats F) where
  unfoldable pub from_entry : ParamEntry F → NetworkParam F
  from_entry e = record {
    to_ip = e.ip;
    package_loss = fl.round32 (fl.mul e.entry_loss (fl.of_int (pos 100)));
    package_delay = e.entry_delay;
    bandwidth = fl.to_int64 e.entry_bandwidth;
  }

  unfoldable pub is_fully_blocking : NetworkParam F → Bool
  is_fully_blocking p = fl.le (fl.of_int (pos 100)) p.package_loss || leb_ℤ p.bandwidth (pos 0)

  -- math.Max(1024, 0.01*math.Max(|b0|, |b1|)), where 0.01 is 1/100.
  bandwidth_tolerance : ℤ → ℤ → F
  bandwidth_tolerance b0 b1 = fl.max (fl.of_int (pos 1024)) (
      fl.mul (fl.div (fl.of_int (pos 1)) (fl.of_int (pos 100)))
        (fl.max (fl.abs (fl.of_int b0)) (fl.abs (fl.of_int b1))))

  -- |a - b| > limit, the difference being taken in float32.
  differ : F → F → ℤ → Bool
  differ a b limit = fl.lt (fl.of_int limit) (fl.abs (fl.round32 (fl.sub a b)))

  unfoldable pub is_almost_equal : NetworkParam F → NetworkParam F → Bool
  unfolding bandwidth_tolerance differ
  is_almost_equal s0 s1 =
      if fl.lt (bandwidth_tolerance s0.bandwidth s1.bandwidth)
        (fl.abs (fl.of_int (int64 (s0.bandwidth -ℤ s1.bandwidth))))
      then false
      else if differ s0.package_delay s1.package_delay (pos 10)
      then false
      else if differ s0.package_loss s1.package_loss (pos 1)
      then false
      else same (is_fully_blocking s0) (is_fully_blocking s1)
