-- ===== src/WorldController/Networking/Minors/Wrap.antt =====
-- `getCID` once the 16-bit minors have been used up
-- (internal-components/world-controller/internal/networking/networking.go).
use yass_simulator.Base.{
  ◌≡◌, String, true, none, some, [], arith, string_eq, nat_eq, string_beq_iff,
}
use yass_simulator.Base.Map.{lookup, lookup-insert}
use yass_simulator.WorldController.Networking.Minors.{
  Addresses, Minors, cid_first, skip_reserved, skip_fuel, assign, fresh_cid, new_cid, known_or_new,
  is_ipv4, get_cid,
}
use yass_simulator.WorldController.Networking.Minors.Skipping.{skip_low}

-- A counter that has run through the 16-bit space starts again from the first minor, whether or not
-- a peer holds it: with no free minor, a new peer is given the minor 0x100 of another.
pub get_cid_after_wrap :
    {IP : Type 0} (net : Addresses IP) (a b : String) (m : Minors)
    → m.next_cid ≡ 0
    → m.free_cids ≡ []
    → lookup a m.cid_by_ip ≡ some cid_first
    → lookup b m.cid_by_ip ≡ none
    → is_ipv4 net b ≡ true
    → let m' = (get_cid net b m).1 in
      (lookup a m'.cid_by_ip ≡ some cid_first) × (lookup b m'.cid_by_ip ≡ some cid_first)
unfolding get_cid known_or_new new_cid fresh_cid assign
get_cid_after_wrap net a b m n f e u v4 =
    let start : skip_reserved skip_fuel m.next_cid ≡ cid_first =
      rw n (skip_low 259 0 (omega arith) (omega arith)) in
    rw (v4, u, f, start, lookup-insert, lookup-insert)
      (ground (arith, string_beq_iff b a, string_beq_iff b b))
