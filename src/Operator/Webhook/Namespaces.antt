-- ===== src/Operator/Webhook/Namespaces.antt =====
-- One experiment per namespace: `ExperimentCustomValidator` of
-- yass-operator/internal/webhook/v1/experiment_webhook.go.
use yass_simulator.Base.{
  ◌≢◌, ◌⊎◌, inl, inr, string_beq_iff, ℕ, ◌+◌, ◌≤◌, ◌≡◌, refl, String, Bool, true, false, ◌&&◌, ◌||◌,
  not, List, [], ◌∷◌, arith, ◌==◌, string_eq, if◌then◌else◌,
}

-- An experiment of the namespace: whether it is being deleted, and whether its resources are evicted.
pub record Sibling : Type 0 where
  pub name : String
  pub deleting : Bool
  pub evicted : Bool

abbrev pub is_running : Sibling → Bool
is_running s = not s.deleting && not s.evicted

-- Whether the loop over the siblings finds none that refuses the experiment.
unfoldable pub none_runs : String → List Sibling → Bool
none_runs name [] = true
none_runs name (s ∷ ss) =
    let rest = none_runs name ss in
    if s.name == name then rest else if is_running s then false else rest

-- The answer to List. The client of the manager reads from a cache, which may be behind the store.
pub data Listing : Type 0 where
  no_client list_failed : Listing
  listed : List Sibling → Listing

-- Whether there is no error.
unfoldable pub validate_single_experiment_per_namespace : String → Listing → Bool
validate_single_experiment_per_namespace name no_client = true
validate_single_experiment_per_namespace name list_failed = false
validate_single_experiment_per_namespace name (listed ss) = none_runs name ss

-- A change of the experiments of a namespace: one is created under a new name, by what the webhook is
-- told of the others; it is to be deleted, is removed, or has its resources evicted.
pub data Change : Type 0 where
  create : String → Listing → Change
  delete_request remove evict : String → Change

unfoldable pub has_name : String → List Sibling → Bool
has_name name [] = false
has_name name (s ∷ ss) = s.name == name || has_name name ss

unfoldable pub marked : String → (Sibling → Sibling) → List Sibling → List Sibling
marked name f [] = []
marked name f (s ∷ ss) = (if s.name == name then f s else s) ∷ marked name f ss

without_name : String → List Sibling → List Sibling
without_name name [] = []
without_name name (s ∷ ss) =
    let rest = without_name name ss in if s.name == name then rest else s ∷ rest

-- The API server creates no second object of a name, and asks the webhook.
unfoldable pub changed : Change → List Sibling → List Sibling
unfolding has_name marked without_name
changed (create name seen) ss =
    if has_name name ss || not (validate_single_experiment_per_namespace name seen)
    then ss
    else record { name = name; deleting = false; evicted = false } ∷ ss
changed (delete_request name) ss = marked name (λ s. record s { deleting = true }) ss
changed (remove name) ss = without_name name ss
changed (evict name) ss = marked name (λ s. record s { evicted = true }) ss

unfoldable pub changed_all : List Change → List Sibling → List Sibling
changed_all [] ss = ss
changed_all (c ∷ cs) ss = changed_all cs (changed c ss)

unfoldable pub count_running : List Sibling → ℕ
count_running [] = 0
count_running (s ∷ ss) = if is_running s then count_running ss + 1 else count_running ss

count_running-validated :
    (name : String) (ss : List Sibling)
    → has_name name ss ≡ false
    → none_runs name ss ≡ true
    → count_running ss ≡ 0
unfolding has_name none_runs count_running
count_running-validated name [] new valid = refl
count_running-validated name (s ∷ ss) new valid = ground (arith, count_running-validated name ss)

count_running-deleting :
    (name : String) (ss : List Sibling)
    → count_running (marked name (λ s. record s { deleting = true }) ss) ≤ count_running ss
unfolding marked count_running
count_running-deleting name [] = omega arith
count_running-deleting name (s ∷ ss) = ground (arith, count_running-deleting name ss)

count_running-evicted :
    (name : String) (ss : List Sibling)
    → count_running (marked name (λ s. record s { evicted = true }) ss) ≤ count_running ss
unfolding marked count_running
count_running-evicted name [] = omega arith
count_running-evicted name (s ∷ ss) = ground (arith, count_running-evicted name ss)

count_running-without_name :
    (name : String) (ss : List Sibling) → count_running (without_name name ss) ≤ count_running ss
unfolding without_name count_running
count_running-without_name name [] = omega arith
count_running-without_name name (s ∷ ss) = ground (arith, count_running-without_name name ss)

-- The webhook is asked only where it has a client, and its list is current if there is one.
unfoldable pub IsCurrent : Change → List Sibling → Type 0
IsCurrent (create name seen) ss = (seen ≡ list_failed) ⊎ (seen ≡ listed ss)
IsCurrent _ ss = Unit {0}

-- Every list along the changes is current.
unfoldable pub AreCurrent : List Change → List Sibling → Type 0
AreCurrent [] ss = Unit {0}
AreCurrent (c ∷ cs) ss = IsCurrent c ss × AreCurrent cs (changed c ss)

count_running-created :
    (name : String) (seen : Listing) (ss : List Sibling)
    → (seen ≡ list_failed) ⊎ (seen ≡ listed ss)
    → count_running ss ≤ 1
    → count_running (changed (create name seen) ss) ≤ 1
unfolding changed count_running validate_single_experiment_per_namespace
count_running-created name seen ss (inl failed) one = rw failed (ground (arith, one))
count_running-created name seen ss (inr current) one =
    rw current (ground (arith, count_running-validated name ss, one))

count_running-changed :
    (c : Change) (ss : List Sibling)
    → IsCurrent c ss
    → count_running ss ≤ 1
    → count_running (changed c ss) ≤ 1
unfolding changed count_running IsCurrent
count_running-changed (create name seen) ss current one =
    count_running-created name seen ss current one
count_running-changed (delete_request name) ss current one =
    omega (arith, count_running-deleting name ss)
count_running-changed (remove name) ss current one =
    omega (arith, count_running-without_name name ss)
count_running-changed (evict name) ss current one = omega (arith, count_running-evicted name ss)

-- From a namespace with at most one running experiment (not being deleted, with its resources not
-- evicted), whatever is created, deleted and evicted in it, one change after the other, at most one
-- is running: where the webhook has a client and each list that it gets for a creation is current. A
-- list that fails refuses the creation.
pub count_running-changed_all :
    (cs : List Change) (ss : List Sibling)
    → count_running ss ≤ 1
    → AreCurrent cs ss
    → count_running (changed_all cs ss) ≤ 1
unfolding changed_all AreCurrent
count_running-changed_all [] ss one current = one
count_running-changed_all (c ∷ cs) ss one current =
    count_running-changed_all cs (changed c ss) (count_running-changed c ss current.0 one) current.1

none_runs-free :
    (name : String) (ss : List Sibling) → count_running ss ≡ 0 → none_runs name ss ≡ true
unfolding none_runs count_running
none_runs-free name [] free = refl
none_runs-free name (s ∷ ss) free = ground (arith, free, none_runs-free name ss)

-- Two experiments of different new names that are created in a namespace where none is running, both
-- with the list from before the first of them, are both admitted: two are running then.
pub count_running-stale :
    (first second : String) (ss : List Sibling)
    → count_running ss ≡ 0
    → has_name first ss ≡ false
    → has_name second ss ≡ false
    → first ≢ second
    → count_running (changed_all (create first (listed ss) ∷ create second (listed ss) ∷ []) ss) ≡ 2
unfolding changed_all changed count_running validate_single_experiment_per_namespace has_name
count_running-stale first second ss free new_first new_second differ = ground (
  arith,
  free,
  new_first,
  new_second,
  differ,
  string_beq_iff first second,
  none_runs-free first ss,
  none_runs-free second ss,
)
