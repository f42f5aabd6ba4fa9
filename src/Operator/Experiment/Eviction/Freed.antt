-- ===== src/Operator/Experiment/Eviction/Freed.antt =====
-- Which objects an eviction deletes
-- (yass-operator/internal/controller/experiment/experiment_controller.go).
use mathlib.Core.List.{append_assoc, append-nil}
use yass_simulator.Base.{
  ◌+◌, ◌≡◌, refl, String, Bool, true, false, ◌&&◌, Option, none, some, List, [], ◌∷◌, ◌++◌, arith,
  length, length-append,
}
use yass_simulator.Base.Result.{Result, ok, err}
use yass_simulator.Operator.Experiment.{ApiError}
use yass_simulator.Operator.Experiment.Cluster.{Cluster, Library}
use yass_simulator.Operator.Experiment.Eviction.{
  Evicted, refused, asked_for, count_one, evict_items, evict_lists,
}

abbrev pub is_none {ℓ} : {A : Type ℓ} → Option A → Bool
is_none none = true
is_none (some a) = false

-- The objects that the cluster lists.
unfoldable pub listed : List (Result ApiError (List String)) → List String
listed [] = []
listed (err e ∷ lists) = listed lists
listed (ok names ∷ lists) = names ++ listed lists

module _ (k : Cluster) where
  -- Every deletion goes well or does not find the object.
  unfoldable pub frees_items : List String → Bool
  frees_items [] = true
  frees_items (name ∷ names) = is_none (refused (k.delete_object name)) && frees_items names

  -- Every list is answered, and every deletion of its objects goes well.
  unfoldable pub frees : List (Result ApiError (List String)) → Bool
  frees [] = true
  frees (err e ∷ lists) = false
  frees (ok names ∷ lists) = frees_items names && frees lists

module _ (k : Cluster) (lib : Library) where
  pub is_none-evict_items :
      (names : List String) (s : Evicted)
      → is_none (evict_items k lib names s).0 ≡ frees_items k names
  unfolding evict_items frees_items
  is_none-evict_items [] s = refl
  is_none-evict_items (name ∷ names) s =
      ground (arith, is_none-evict_items names (count_one (asked_for name s)))

  evict_items_lem :
      (names : List String) (s : Evicted)
      → frees_items k names ≡ true
      → (evict_items k lib names s).1
        ≡ record { asked = s.asked ++ names; count = s.count + length names }
  unfolding evict_items frees_items asked_for count_one
  evict_items_lem [] s h = grind (arith, append-nil s.asked)
  evict_items_lem (name ∷ names) s h = grind (
    arith,
    evict_items_lem names (count_one (asked_for name s)),
    append_assoc s.asked (name ∷ []) names,
  )

  pub is_none-evict_lists :
      (lists : List (Result ApiError (List String))) (s : Evicted)
      → is_none (evict_lists k lib lists s).0 ≡ frees k lists
  unfolding evict_lists frees
  is_none-evict_lists [] s = refl
  is_none-evict_lists (err e ∷ lists) s = refl
  is_none-evict_lists (ok names ∷ lists) s =
      ground (
        arith,
        is_none-evict_items names s,
        is_none-evict_lists lists (evict_items k lib names s).1,
      )

  pub evict_lists_lem :
      (lists : List (Result ApiError (List String))) (s : Evicted)
      → frees k lists ≡ true
      → (evict_lists k lib lists s).1
        ≡ record { asked = s.asked ++ listed lists; count = s.count + length (listed lists) }
  unfolding evict_lists frees listed
  evict_lists_lem [] s h = grind (arith, append-nil s.asked)
  evict_lists_lem (err e ∷ lists) s h = cc
  evict_lists_lem (ok names ∷ lists) s h = grind (
    arith,
    is_none-evict_items names s,
    evict_items_lem names s,
    append_assoc s.asked names (listed lists),
    length-append names (listed lists),
    evict_lists_lem lists (evict_items k lib names s).1,
  )
