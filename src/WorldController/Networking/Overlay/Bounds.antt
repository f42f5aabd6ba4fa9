-- ===== src/WorldController/Networking/Overlay/Bounds.antt =====
-- What the fault overlay does to a link
-- (internal-components/world-controller/internal/networking/overlay.go).
use Prim.Native.Nat.{min, max}
use yass_simulator.Base.{
  ℕ, zero, suc, ◌-◌, ◌*◌, ◌/◌, ◌≤◌, ◌<◌, ◌≡◌, ap, true, false, ◌&&◌, ◌||◌, if◌then◌else◌, arith,
  ltb,
}
use yass_simulator.Base.Int.{
  ℤ, pos, ◌-ℤ◌, ◌*ℤ◌, ltb_ℤ, leb_ℤ, quot, int64, int32, int64-pos, int32-pos,
}
use yass_simulator.Base.Float.{Floats}
use yass_simulator.WorldController.Networking.Param.{NetworkParam, is_fully_blocking}
use yass_simulator.WorldController.Networking.Overlay.{
  Overlay, at_least_one, reduced, capped, apply_overlay,
}

-- The rate of a link of `n` bits per second under a cap (0 for none) and a reduction in percent.
unfoldable pub effective_rate : ℕ → ℕ → ℕ → ℕ
effective_rate cap pct n =
    let left = max 1 (n * (100 - pct) / 100) in if ltb 0 cap then min cap left else left

100-sub : (pct : ℕ) → pct ≤ 99 → pos 100 -ℤ pos pct ≡ pos (100 - pct)
unfolding ◌-ℤ◌
100-sub pct h = ground arith

pos-mul : (a b : ℕ) → pos a *ℤ pos b ≡ pos (a * b)
unfolding ◌*ℤ◌
pos-mul a b = ground arith

quot-pos : (a : ℕ) → quot (pos a) 100 ≡ pos (a / 100)
unfolding quot
quot-pos a = ground arith

-- The product of the reduction does not overflow an int64.
product_fits : (n p : ℕ) → n ≤ 92233720368547758 → p ≤ 100 → n * p < 9223372036854775808
product_fits n p h k = let le : n * p ≤ 92233720368547758 * 100 = grind arith in omega (arith, le)

at_least_one-pos : (n : ℕ) → at_least_one (pos n) ≡ pos (max 1 n)
unfolding at_least_one
at_least_one-pos n = ground arith

scaled :
    (pct n : ℕ)
    → n ≤ 92233720368547758
    → pct ≤ 99
    → quot (int64 (pos n *ℤ int32 (pos 100 -ℤ pos pct))) 100 ≡ pos (n * (100 - pct) / 100)
scaled pct n k l =
    rw
      (
        100-sub pct l,
        int32-pos (100 - pct) (omega arith),
        pos-mul n (100 - pct),
        int64-pos (n * (100 - pct)) (product_fits n (100 - pct) k (omega arith)),
      )
      (quot-pos (n * (100 - pct)))

reduced-pos :
    (pct n : ℕ)
    → 0 < n
    → n ≤ 92233720368547758
    → pct ≤ 99
    → reduced (pos pct) (pos n) ≡ pos (max 1 (n * (100 - pct) / 100))
unfolding reduced
reduced-pos zero n h k l = ground arith
reduced-pos (suc pct) n h k l =
    let tests : (ltb_ℤ (pos 0) (pos (suc pct)) && ltb_ℤ (pos 0) (pos n)) ≡ true = ground arith in
    rw (tests, scaled (suc pct) n k l) (at_least_one-pos (n * (100 - suc pct) / 100))

capped-pos :
    (cap n : ℕ) → 0 < n → capped (pos cap) (pos n) ≡ pos (if ltb 0 cap then min cap n else n)
unfolding capped
capped-pos cap n h = ground arith

-- Without a black hole, a link of a positive rate of at most 92233720368547758 bits per second is
-- given its rate less the reduction (a reduction of at most 99 percent leaves at least 1), and then
-- at most the cap, if there is one; the loss, the delay and the address are kept.
pub apply_overlay-eq-effective_rate :
    {F : Type 0} (fl : Floats F) (cap pct n : ℕ) (p : NetworkParam F)
    → 0 < n
    → n ≤ 92233720368547758
    → pct ≤ 99
    → p.bandwidth ≡ pos n
    → apply_overlay fl
        (record { external_cap_bps = pos cap; reduction_pct = pos pct; black_hole = false })
        p
      ≡ record p { bandwidth = pos (effective_rate cap pct n) }
unfolding apply_overlay effective_rate
apply_overlay-eq-effective_rate fl cap pct n p h k l e =
    ap (λ b. record p { bandwidth = b })
      (rw (e, reduced-pos pct n h k l)
        (capped-pos cap (max 1 (n * (100 - pct) / 100)) (omega arith)))

mul_le : (n a b : ℕ) → a ≤ b → n * a ≤ n * b
mul_le n a b h = grind arith

-- The rate under a fault is at least 1, at most the orbital rate, and at most the cap if there is
-- one that is positive.
pub effective_rate_bounds :
    (cap pct n : ℕ)
    → 0 < n
    → (0 < effective_rate cap pct n)
      × (effective_rate cap pct n ≤ n)
      × (0 < cap → effective_rate cap pct n ≤ cap)
unfolding effective_rate
effective_rate_bounds cap pct n h = ground (arith, mul_le n (100 - pct) 100 (omega arith))

-- Without a black hole the overlay changes no link between blocked and open.
reduced_sign : (pct bw : ℤ) → leb_ℤ (reduced pct bw) (pos 0) ≡ leb_ℤ bw (pos 0)
unfolding reduced at_least_one
reduced_sign pct bw = ground arith

capped_sign : (cap bw : ℤ) → leb_ℤ (capped cap bw) (pos 0) ≡ leb_ℤ bw (pos 0)
unfolding capped
capped_sign cap bw = ground arith

-- Under any cap and any reduction, a link without a black hole is blocked exactly when it is blocked
-- by its orbital values: a fault neither opens a link nor closes it. Under a black hole every link
-- is blocked, where 100 <= 100 holds of floating point numbers.
pub is_fully_blocking-apply_overlay :
    {F : Type 0} (fl : Floats F) (o : Overlay) (p : NetworkParam F)
    → fl.le (fl.of_int (pos 100)) (fl.of_int (pos 100)) ≡ true
    → is_fully_blocking fl (apply_overlay fl o p) ≡ (o.black_hole || is_fully_blocking fl p)
unfolding is_fully_blocking apply_overlay
is_fully_blocking-apply_overlay fl o p h = ground (
  arith,
  capped_sign o.external_cap_bps (reduced o.reduction_pct p.bandwidth),
  reduced_sign o.reduction_pct p.bandwidth,
)
