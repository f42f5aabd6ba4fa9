-- ===== src/Base/Lists.antt =====
-- Lists measured by native numbers, and Boolean membership.
use Prim.Native.Nat.{ℕ, zero, suc, ◌+◌}
use mathlib.Core.Path.{◌≡◌, refl, ◌∙◌}
use mathlib.Core.Bool.{Bool, false, ◌||◌}
use mathlib.Core.List.{List, [], ◌∷◌, ◌++◌}
use mathlib.Core.Option.{Option, none, some}
use native.Mathlib.Omega.{arith}
use yass_simulator.Base.Tests.{Comparable, ◌==◌, nat_beq, if◌then◌else◌}

module _ {ℓ} {A : Type ℓ} where
  abbrev pub length : List A → ℕ
  length [] = 0
  length (x ∷ xs) = suc (length xs)

  abbrev pub get_elem? : List A → ℕ → Option A
  get_elem? [] i = none
  get_elem? (x ∷ xs) zero = some x
  get_elem? (x ∷ xs) (suc i) = get_elem? xs i

  -- A write out of bounds changes nothing.
  abbrev pub set : List A → ℕ → A → List A
  set [] i v = []
  set (x ∷ xs) zero v = v ∷ xs
  set (x ∷ xs) (suc i) v = x ∷ set xs i v

  pub length-append : (xs ys : List A) → length (xs ++ ys) ≡ length xs + length ys
  length-append [] ys = omega arith
  length-append (x ∷ xs) ys = omega (arith, length-append xs ys)

-- Every element has the property.
abbrev pub All {ℓ κ} : {A : Type ℓ} → (A → Type κ) → List A → Type κ
All P [] = Unit
All P (x ∷ xs) = P x × All P xs

module _ {ℓ} {A : Type ℓ} ⦃e : Comparable A⦄ where
  unfoldable pub contains : List A → A → Bool
  contains [] a = false
  contains (x ∷ xs) a = x == a || contains xs a

  pub contains-append :
      (xs ys : List A) (a : A) → contains (xs ++ ys) a ≡ (contains xs a || contains ys a)
  unfolding contains
  contains-append [] ys a = refl
  contains-append (x ∷ xs) ys a = ground (arith, contains-append xs ys a)

  unfoldable pub without : A → List A → List A
  without a [] = []
  without a (x ∷ xs) = let rest = without a xs in if x == a then rest else x ∷ rest

  -- No element occurs twice.
  abbrev pub Distinct : List A → Type 0
  Distinct [] = Unit
  Distinct (x ∷ xs) = (contains xs x ≡ false) × Distinct xs

  pub without_absent : (a : A) (xs : List A) → contains xs a ≡ false → without a xs ≡ xs
  unfolding contains without
  without_absent a [] h = refl
  without_absent a (x ∷ xs) h = ground (arith, without_absent a xs)

  pub without_head : (a : A) (xs : List A) → contains xs a ≡ false → without a (a ∷ xs) ≡ xs
  unfolding without
  without_head a xs h = ground (arith, e.test_iff a a, without_absent a xs)

  pub contains-without :
      (a b : A) (xs : List A) → contains xs b ≡ false → contains (without a xs) b ≡ false
  unfolding contains without
  contains-without a b [] h = refl
  contains-without a b (x ∷ xs) h = ground (arith, contains-without a b xs)

  pub without-Distinct : (a : A) (xs : List A) → Distinct xs → Distinct (without a xs)
  unfolding without
  without-Distinct a [] d = tt
  without-Distinct a (x ∷ xs) d =
      ground (arith, contains-without a x xs d.0, without-Distinct a xs d.1)

  -- In a list without repetition an element between two parts is in neither.
  pub without_middle :
      (a : A) (xs ys : List A) → Distinct (xs ++ a ∷ ys) → without a (xs ++ a ∷ ys) ≡ xs ++ ys
  unfolding without contains
  without_middle a [] ys d = without_head a ys d.0
  without_middle a (x ∷ xs) ys d = ground (
    arith,
    contains-append xs (a ∷ ys) x,
    e.test_iff x a,
    e.test_iff a x,
    without_middle a xs ys d.1,
  )

  pub Distinct-snoc :
      (xs : List A) (a : A) → Distinct xs → contains xs a ≡ false → Distinct (xs ++ a ∷ [])
  unfolding contains
  Distinct-snoc [] a d h = (refl, tt)
  Distinct-snoc (x ∷ xs) a d h =
      ground (
        arith,
        contains-append xs (a ∷ []) x,
        Distinct-snoc xs a d.1,
        e.test_iff x a,
        e.test_iff a x,
      )

-- Reading behind a write within bounds.
pub get_elem?-set {ℓ} :
    {A : Type ℓ} (xs : List A) (i j : ℕ) (v w : A)
    → get_elem? xs i ≡ some w
    → get_elem? (set xs i v) j ≡ (if nat_beq i j then some v else get_elem? xs j)
get_elem?-set [] i j v w h = cc
get_elem?-set (x ∷ xs) zero zero v w h = refl
get_elem?-set (x ∷ xs) zero (suc j) v w h = ground arith
get_elem?-set (x ∷ xs) (suc i) zero v w h = ground arith
get_elem?-set (x ∷ xs) (suc i) (suc j) v w h = get_elem?-set xs i j v w h ∙ ground arith
