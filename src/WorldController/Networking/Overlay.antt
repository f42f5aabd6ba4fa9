-- ===== src/WorldController/Networking/Overlay.antt =====
-- `applyOverlayLocked` of internal-components/world-controller/internal/networking/overlay.go.
pub mod Bounds
use yass_simulator.Base.{ℕ, Bool, true, false, ◌&&◌, if◌then◌else◌}
use yass_simulator.Base.Int.{ℤ, pos, ◌-ℤ◌, ◌*ℤ◌, ltb_ℤ, quot, int64, int32}
use yass_simulator.Base.Float.{Floats}
use yass_simulator.WorldController.Networking.Param.{NetworkParam}

-- The overlay fields of `Handler`: an int64, an int32 and a flag.
pub record Overlay : Type 0 where
  pub external_cap_bps : ℤ
  pub reduction_pct : ℤ
  pub black_hole : Bool

abbrev pub clear_overlay : Overlay
clear_overlay = record { external_cap_bps = pos 0; reduction_pct = pos 0; black_hole = false }

unfoldable pub at_least_one : ℤ → ℤ
at_least_one b = if ltb_ℤ b (pos 1) then pos 1 else b

unfoldable pub reduced : ℤ → ℤ → ℤ
unfolding at_least_one
reduced pct bw =
    if ltb_ℤ (pos 0) pct && ltb_ℤ (pos 0) bw
    then at_least_one (quot (int64 (bw *ℤ int32 (pos 100 -ℤ pct))) 100)
    else bw

unfoldable pub capped : ℤ → ℤ → ℤ
capped cap bw = if ltb_ℤ (pos 0) cap && (ltb_ℤ (pos 0) bw && ltb_ℤ cap bw) then cap else bw

module _ {F : Type 0} (fl : Floats F) where
  unfoldable pub apply_overlay : Overlay → NetworkParam F → NetworkParam F
  unfolding reduced capped
  apply_overlay o p =
      let bw = capped o.external_cap_bps (reduced o.reduction_pct p.bandwidth) in
      if o.black_hole
      then record p { bandwidth = pos 1; package_loss = fl.of_int (pos 100) }
      else record p { bandwidth = bw }
