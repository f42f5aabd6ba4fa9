-- ===== src/WorldController/Networking/Minors/Skipping.antt =====
-- The loop of `getCID` over the reserved minors
-- (internal-components/world-controller/internal/networking/networking.go).
use yass_simulator.Base.{
  ℕ, zero, suc, ◌+◌, ◌≤◌, ◌<◌, ◌≡◌, refl, ◌∙◌, inl, inr, true, false, arith, ltb, ◌==◌, string_eq,
  nat_eq, if◌then◌else◌, Bool-cases,
}
use yass_simulator.WorldController.Networking.Minors.{
  cid_first, cid_drop, cid_default, u16, is_reserved, skip_reserved, skip_fuel,
}

-- What the loop of getCID comes to.
abbrev pub next_usable : ℕ → ℕ
next_usable n =
    if ltb n cid_first
    then cid_first
    else if n == cid_drop
    then cid_drop + 1
    else if n == cid_default
    then cid_default + 1
    else n

pub skip_low :
    (fuel n : ℕ) → n < cid_first → cid_first ≤ fuel + n → skip_reserved (suc fuel) n ≡ cid_first
unfolding skip_reserved
skip_low zero n h k = absurd (omega arith)
skip_low (suc fuel) n h k = elim (Bool-cases (ltb (n + 1) cid_first)) [
  | inl low ↦
      let next : u16 (n + 1) ≡ n + 1 = omega arith in
      let reserved : is_reserved n ≡ true = ground arith in
      rw (reserved, next) (skip_low fuel (n + 1) (ground arith) (omega arith))
  | inr done ↦ let last : n ≡ 255 = ground arith in rw last refl
]

skip_high :
    (fuel n : ℕ) → cid_first ≤ n → n < 65536 → skip_reserved (suc (suc fuel)) n ≡ next_usable n
unfolding skip_reserved
skip_high fuel n h k = ground arith

-- The loop of getCID ends from every uint16, at a minor that is not reserved: the fuel is enough.
pub skip_reserved-eq-next_usable :
    (n : ℕ)
    → n < 65536
    → (skip_reserved skip_fuel n ≡ next_usable n) × (is_reserved (next_usable n) ≡ false)
skip_reserved-eq-next_usable n h = elim (Bool-cases (ltb n cid_first)) [
  | inl low ↦ (skip_low 259 n (ground arith) (omega arith) ∙ ground (arith, low), ground arith)
  | inr high ↦ (skip_high 258 n (ground arith) h, ground arith)
]
