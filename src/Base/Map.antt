-- ===== src/Base/Map.antt =====
-- Go's maps as association lists over keys with a test of equality: `m[k]`, `m[k] = v`,
-- `delete(m, k)` and `len(m)`. A loop over a map runs in the order of the list. Go leaves that
-- order open, and the list of a map may be any.
use Prim.Native.Nat.{suc, ◌≤◌}
use mathlib.Core.Path.{◌≡◌, refl}
use mathlib.Core.Logic.{inl, inr}
use mathlib.Core.Bool.{Bool, true, false}
use mathlib.Core.List.{List, [], ◌∷◌, ◌++◌}
use mathlib.Core.Option.{Option, none, some}
use native.Mathlib.Omega.{arith}
use yass_simulator.Base.Tests.{Comparable, ◌==◌, if◌then◌else◌, Option-cases}
use yass_simulator.Base.Lists.{length, contains, without, Distinct, Distinct-snoc}

abbrev pub Map {ℓ κ} : Type ℓ → Type κ → Type (ℓ ⊔ κ)
Map K V = List (K × V)

module _ {ℓ κ} {K : Type ℓ} {V : Type κ} where
  abbrev pub keys : Map K V → List K
  keys [] = []
  keys ((k, v) ∷ m) = k ∷ keys m

module _ {ℓ κ} {K : Type ℓ} {V : Type κ} ⦃e : Comparable K⦄ where
  unfoldable pub delete : K → Map K V → Map K V
  delete sought [] = []
  delete sought ((k, v) ∷ others) =
      let rest = delete sought others in if k == sought then rest else (k, v) ∷ rest

  unfoldable pub lookup : K → Map K V → Option V
  lookup sought [] = none
  lookup sought ((k, v) ∷ others) = if k == sought then some v else lookup sought others

  unfoldable pub member : K → Map K V → Bool
  member k m = elim (lookup k m) [ none ↦ false | some v ↦ true ]

  unfoldable pub insert : K → V → Map K V → Map K V
  insert key new [] = (key, new) ∷ []
  insert key new ((k, v) ∷ others) =
      if k == key then (key, new) ∷ others else (k, v) ∷ insert key new others

  pub lookup-insert :
      (k j : K) (v : V) (m : Map K V)
      → lookup j (insert k v m) ≡ (if k == j then some v else lookup j m)
  unfolding insert lookup
  lookup-insert k j v ((key, old) ∷ others) =
      ground (arith, e.test_iff k j, e.test_iff key k, e.test_iff key j, lookup-insert k j v others)
  lookup-insert _ _ _ [] = refl

  pub lookup-delete :
      (k j : K) (m : Map K V) → lookup j (delete k m) ≡ (if k == j then none else lookup j m)
  unfolding lookup delete
  lookup-delete k j [] = ground arith
  lookup-delete k j ((i, w) ∷ m) =
      ground (arith, e.test_iff k j, e.test_iff i k, e.test_iff i j, lookup-delete k j m)

  pub keys-insert_new :
      (k : K) (v : V) (m : Map K V) → lookup k m ≡ none → keys (insert k v m) ≡ keys m ++ k ∷ []
  unfolding lookup insert
  keys-insert_new k v [] h = refl
  keys-insert_new k v ((j, w) ∷ m) h = ground (arith, keys-insert_new k v m)

  pub keys-insert_old :
      (k : K) (v w : V) (m : Map K V) → lookup k m ≡ some w → keys (insert k v m) ≡ keys m
  unfolding lookup insert
  keys-insert_old k v w [] h = cc
  keys-insert_old k v w ((j, x) ∷ m) h = ground (arith, e.test_iff j k, keys-insert_old k v w m)

  pub keys-delete : (k : K) (m : Map K V) → keys (delete k m) ≡ without k (keys m)
  unfolding delete without
  keys-delete k [] = refl
  keys-delete k ((j, w) ∷ m) = ground (arith, keys-delete k m)

  pub contains-keys : (k : K) (m : Map K V) → contains (keys m) k ≡ member k m
  unfolding contains member lookup
  contains-keys k [] = refl
  contains-keys k ((j, w) ∷ m) = ground (arith, contains-keys k m)

  pub lookup_absent : (k : K) (m : Map K V) → contains (keys m) k ≡ false → lookup k m ≡ none
  unfolding member
  lookup_absent k m h = ground (arith, contains-keys k m)

  pub lookup-none : (k : K) (m : Map K V) → lookup k m ≡ none → contains (keys m) k ≡ false
  unfolding member
  lookup-none k m h = ground (arith, contains-keys k m)

module _ {ℓ κ} {K : Type ℓ} {V : Type κ} ⦃e : Comparable K⦄ where
  -- Writing adds one entry at most.
  pub length-insert : (k : K) (v : V) (m : Map K V) → length (insert k v m) ≤ suc (length m)
  unfolding insert
  length-insert k v [] = omega arith
  length-insert k v ((j, w) ∷ m) = ground (arith, length-insert k v m)

  -- Writing keeps the keys of a map distinct.
  pub Distinct-insert :
      (k : K) (v : V) (m : Map K V) → Distinct (keys m) → Distinct (keys (insert k v m))
  Distinct-insert k v m d = elim (Option-cases (lookup k m)) [
    | inl absent ↦
        rw (keys-insert_new k v m absent) (Distinct-snoc (keys m) k d (lookup-none k m absent))
    | inr (w, found) ↦ rw (keys-insert_old k v w m found) d
  ]

module _ {ℓ κ} {K : Type ℓ} {V : Type κ} where
  pub length-keys : (m : Map K V) → length (keys m) ≡ length m
  length-keys [] = refl
  length-keys ((k, v) ∷ m) = omega (arith, length-keys m)
