-- ===== src/WorldController/Networking/Minors/Counter.antt =====
-- How far the counter of `getCID` moves
-- (internal-components/world-controller/internal/networking/networking.go).
use yass_simulator.Base.{
  ℕ, ◌+◌, ◌≤◌, ◌<◌, ◌≡◌, refl, inl, inr, String, Option, none, some, List, [], ◌∷◌, arith,
  string_eq, nat_eq, Bool-cases,
}
use yass_simulator.Base.Map.{lookup}
use yass_simulator.WorldController.Networking.Minors.{
  Addresses, Minors, cid_first, skip_reserved, skip_fuel, assign, fresh_cid, new_cid, known_or_new,
  is_ipv4, get_cid, release, release_found,
}
use yass_simulator.WorldController.Networking.Minors.Skipping.{
  next_usable, skip_reserved-eq-next_usable,
}
use yass_simulator.WorldController.Networking.Minors.Allocation.{
  IsAllocated, get_cid-IsAllocated, release-IsAllocated,
}

known_or_new-next_cid :
    (found : Option ℕ) (free : List ℕ) (ip : String) (m : Minors)
    → m.free_cids ≡ free
    → cid_first ≤ m.next_cid
    → m.next_cid < 65535
    → (known_or_new found ip m).1.next_cid ≤ m.next_cid + 2
unfolding known_or_new new_cid fresh_cid assign
known_or_new-next_cid (some c) free ip m e low room = omega arith
known_or_new-next_cid none [] ip m e low room =
    let here : skip_reserved skip_fuel m.next_cid ≡ next_usable m.next_cid =
      (skip_reserved-eq-next_usable m.next_cid (omega arith)).0 in
    rw (e, here) (ground arith)
known_or_new-next_cid none (c ∷ free) ip m e low room = rw e (omega arith)

-- The minors are allocated, and their counter is at most n.
pub record IsReady (n : ℕ) (m : Minors) : Type 0 where
  pub allocated : IsAllocated m
  pub counter : m.next_cid ≤ n

get_cid-next_cid :
    {IP : Type 0} (net : Addresses IP) (n : ℕ) (ip : String) (m : Minors)
    → IsReady n m
    → n < 65535
    → (get_cid net ip m).1.next_cid ≤ n + 2
unfolding get_cid
get_cid-next_cid net n ip m r room = elim (Bool-cases (is_ipv4 net ip)) [
  | inl v4 ↦ rw v4 (
      omega (
        arith,
        r.counter,
        known_or_new-next_cid (lookup ip m.cid_by_ip) m.free_cids ip m refl r.allocated.bounded.0
            (omega (arith, r.counter)),
      ))
  | inr other ↦ rw other (omega (arith, r.counter))
]

-- getCID moves the counter by two at most.
pub get_cid-IsReady :
    {IP : Type 0} (net : Addresses IP) (n : ℕ) (ip : String) (m : Minors)
    → IsReady n m
    → n < 65535
    → IsReady (n + 2) (get_cid net ip m).1
get_cid-IsReady net n ip m r room = record {
  allocated = get_cid-IsAllocated net ip m r.allocated (omega (arith, r.counter));
  counter = get_cid-next_cid net n ip m r room;
}

next_cid-release : (ip : String) (m : Minors) → (release ip m).next_cid ≡ m.next_cid
unfolding release release_found
next_cid-release ip m = ground arith

pub release-IsReady : (n : ℕ) (ip : String) (m : Minors) → IsReady n m → IsReady n (release ip m)
release-IsReady n ip m r = record {
  allocated = release-IsAllocated ip m r.allocated;
  counter = omega (arith, r.counter, next_cid-release ip m);
}
