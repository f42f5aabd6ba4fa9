-- ===== src/WorldController/Networking/Minors/Allocation.antt =====
-- The HTB minors of internal-components/world-controller/internal/networking/networking.go are not
-- shared and not reserved.
use yass_simulator.Base.{
  ℕ, ◌+◌, ◌≤◌, ◌<◌, ◌≡◌, ◌≢◌, refl, subst, inl, inr, String, true, false, Option, none, some, List,
  [], ◌∷◌, arith, string_eq, nat_eq, nat_beq_iff, string_beq_iff, contains, Distinct, Bool-cases,
}
use yass_simulator.Base.Map.{lookup, lookup-insert, lookup-delete}
use yass_simulator.WorldController.Networking.Minors.{
  Addresses, Minors, cid_first, cid_drop, cid_default, new_minors, u16, skip_reserved, skip_fuel,
  assign, fresh_cid, new_cid, known_or_new, is_ipv4, get_cid, release, release_found,
}
use yass_simulator.WorldController.Networking.Minors.Skipping.{
  next_usable, skip_reserved-eq-next_usable,
}

-- A minor for a peer, below a bound.
abbrev pub IsUsable : ℕ → ℕ → Type 0
IsUsable bound c = (cid_first ≤ c) × (c < bound) × (c ≢ cid_drop) × (c ≢ cid_default)

-- The minors in use and the free ones are usable and below the next one, no two peers share a minor,
-- and no free minor is in use or listed twice.
pub record IsAllocated (m : Minors) : Type 0 where
  pub bounded : (cid_first ≤ m.next_cid) × (m.next_cid < 65536)
  pub usable : (ip : String) (c : ℕ) → lookup ip m.cid_by_ip ≡ some c → IsUsable m.next_cid c
  pub unshared :
      (a b : String) (c : ℕ) → lookup a m.cid_by_ip ≡ some c → lookup b m.cid_by_ip ≡ some c → a ≡ b
  pub free_usable : (c : ℕ) → contains m.free_cids c ≡ true → IsUsable m.next_cid c
  pub free_unused :
      (c : ℕ) (ip : String) → contains m.free_cids c ≡ true → lookup ip m.cid_by_ip ≢ some c
  pub free_distinct : Distinct m.free_cids

pub new_minors-IsAllocated : IsAllocated new_minors
unfolding new_minors lookup contains
new_minors-IsAllocated = record {
  bounded = omega arith;
  usable = λ ip c h. cc;
  unshared = λ a b c h k. cc;
  free_usable = λ c h. cc;
  free_unused = λ c ip h. cc;
  free_distinct = tt;
}

assign-IsAllocated :
    (ip : String) (c : ℕ) (m : Minors)
    → IsAllocated m
    → IsUsable m.next_cid c
    → ((a : String) → lookup a m.cid_by_ip ≢ some c)
    → contains m.free_cids c ≡ false
    → IsAllocated (assign ip c m)
unfolding assign
assign-IsAllocated ip c m al u unused nf = record {
  bounded = al.bounded;
  usable =
      λ a d h. ground (arith, lookup-insert ip a c m.cid_by_ip, string_beq_iff ip a, al.usable a d);
  unshared = λ a b d h k. ground (
    arith,
    lookup-insert ip a c m.cid_by_ip,
    string_beq_iff ip a,
    lookup-insert ip b c m.cid_by_ip,
    string_beq_iff ip b,
    al.unshared a b d,
    unused a,
    unused b,
  );
  free_usable = al.free_usable;
  free_unused = λ d a h k.
      ground (arith, lookup-insert ip a c m.cid_by_ip, string_beq_iff ip a, al.free_unused d a);
  free_distinct = al.free_distinct;
}

-- A later next minor does no harm.
advance-IsAllocated :
    (n : ℕ) (m : Minors)
    → IsAllocated m
    → m.next_cid ≤ n
    → n < 65536
    → IsAllocated (record m { next_cid = n })
advance-IsAllocated n m al h k = record {
  bounded = omega (arith, al.bounded);
  usable = λ a c e. omega (arith, al.usable a c e);
  unshared = al.unshared;
  free_usable = λ c e. omega (arith, al.free_usable c e);
  free_unused = al.free_unused;
  free_distinct = al.free_distinct;
}

fresh_cid-IsAllocated :
    (ip : String) (m : Minors) → IsAllocated m → m.next_cid < 65535 → IsAllocated (fresh_cid ip m).1
unfolding fresh_cid
fresh_cid-IsAllocated ip m al room =
    let c = next_usable m.next_cid in
    let here : skip_reserved skip_fuel m.next_cid ≡ c =
      (skip_reserved-eq-next_usable m.next_cid (al.bounded.1)).0 in
    let next : u16 (c + 1) ≡ c + 1 = ground (arith, al.bounded) in
    let usable : IsUsable (c + 1) c = ground (arith, al.bounded) in
    rw (here, next)
      (assign-IsAllocated ip c (record m { next_cid = c + 1 })
        (advance-IsAllocated (c + 1) m al (ground arith) (ground arith)) usable
        (λ a e. ground (arith, al.usable a c e))
        (elim (Bool-cases (contains m.free_cids c)) [
          | inl is_free ↦ absurd (ground (arith, al.free_usable c is_free))
          | inr not_free ↦ not_free
        ]))

reuse-IsAllocated :
    (ip : String) (c : ℕ) (free : List ℕ) (m : Minors)
    → m.free_cids ≡ c ∷ free
    → IsAllocated m
    → IsAllocated (assign ip c (record m { free_cids = free }))
unfolding contains
reuse-IsAllocated ip c free m e al =
    let d : Distinct (c ∷ free) = subst (λ l. Distinct l) e al.free_distinct in
    let listed : contains m.free_cids c ≡ true = rw e (ground (arith, nat_beq_iff c c)) in
    let kept = λ (x : ℕ) (h : contains free x ≡ true).
      let all : contains m.free_cids x ≡ true = rw e (ground (arith, h)) in all in
    assign-IsAllocated ip c (record m { free_cids = free })
      (record {
        bounded = al.bounded;
        usable = al.usable;
        unshared = al.unshared;
        free_usable = λ x h. al.free_usable x (kept x h);
        free_unused = λ x a h. al.free_unused x a (kept x h);
        free_distinct = d.1;
      })
      (al.free_usable c listed) (λ a. al.free_unused c a listed) d.0

new_cid-IsAllocated :
    (free : List ℕ) (ip : String) (m : Minors)
    → m.free_cids ≡ free
    → IsAllocated m
    → m.next_cid < 65535
    → IsAllocated (new_cid free ip m).1
unfolding new_cid
new_cid-IsAllocated [] ip m e al room = fresh_cid-IsAllocated ip m al room
new_cid-IsAllocated (c ∷ free) ip m e al room = reuse-IsAllocated ip c free m e al

known_or_new-IsAllocated :
    (found : Option ℕ) (ip : String) (m : Minors)
    → IsAllocated m
    → m.next_cid < 65535
    → IsAllocated (known_or_new found ip m).1
unfolding known_or_new
known_or_new-IsAllocated (some c) ip m al room = al
known_or_new-IsAllocated none ip m al room = new_cid-IsAllocated m.free_cids ip m refl al room

-- getCID keeps the minors allocated, as long as its counter has not reached the last uint16.
pub get_cid-IsAllocated :
    {IP : Type 0} (net : Addresses IP) (ip : String) (m : Minors)
    → IsAllocated m
    → m.next_cid < 65535
    → IsAllocated (get_cid net ip m).1
unfolding get_cid
get_cid-IsAllocated net ip m al room = elim (Bool-cases (is_ipv4 net ip)) [
  | inl v4 ↦ rw v4 (known_or_new-IsAllocated (lookup ip m.cid_by_ip) ip m al room)
  | inr other ↦ rw other al
]

release_found-IsAllocated :
    (found : Option ℕ) (ip : String) (m : Minors)
    → lookup ip m.cid_by_ip ≡ found
    → IsAllocated m
    → IsAllocated (release_found found ip m)
unfolding release_found contains
release_found-IsAllocated none ip m e al = al
release_found-IsAllocated (some c) ip m e al = record {
  bounded = al.bounded;
  usable =
      λ a d h. ground (arith, lookup-delete ip a m.cid_by_ip, string_beq_iff ip a, al.usable a d);
  unshared = λ a b d h k.
      ground
        (arith, lookup-delete ip a m.cid_by_ip, lookup-delete ip b m.cid_by_ip, al.unshared a b d);
  free_usable = λ d h. ground (arith, nat_beq_iff c d, al.usable ip c e, al.free_usable d);
  free_unused = λ d a h k. ground (
    arith,
    lookup-delete ip a m.cid_by_ip,
    string_beq_iff ip a,
    nat_beq_iff c d,
    al.unshared a ip c,
    al.free_unused d a,
  );
  free_distinct = (
    elim (Bool-cases (contains m.free_cids c)) [
      | inl is_free ↦ absurd (al.free_unused c ip is_free e)
      | inr not_free ↦ not_free
    ],
    al.free_distinct,
  );
}

-- Giving back the minor of a peer keeps the minors allocated.
pub release-IsAllocated : (ip : String) (m : Minors) → IsAllocated m → IsAllocated (release ip m)
unfolding release
release-IsAllocated ip m al = release_found-IsAllocated (lookup ip m.cid_by_ip) ip m refl al
