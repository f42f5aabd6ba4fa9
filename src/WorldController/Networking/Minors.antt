-- ===== src/WorldController/Networking/Minors.antt =====
-- The HTB minors of the peers: `getCID` of
-- internal-components/world-controller/internal/networking/networking.go, and the release of a minor
-- in `Update`.
pub mod Skipping
pub mod Allocation
pub mod Wrap
pub mod Counter
use yass_simulator.Base.{
  ℕ, zero, suc, ◌+◌, ◌%◌, String, Bool, true, false, ◌||◌, Option, none, some, List, [], ◌∷◌, ltb,
  ◌==◌, string_eq, nat_eq, if◌then◌else◌,
}
use yass_simulator.Base.Map.{Map, lookup, insert, delete}

-- net.ParseIP and the methods of net.IP.
pub record Addresses (IP : Type 0) : Type 0 where
  pub parse_ip : String → Option IP
  pub is_v4 : IP → Bool
  pub ip_equal : IP → IP → Bool
  pub ip_string : IP → String

-- The fields cidByIP, nextCID and freeCIDs of `Handler`. The slice of free minors is a stack: its
-- last element is the head of the list. Minors are uint16.
pub record Minors : Type 0 where
  pub cid_by_ip : Map String ℕ
  pub next_cid : ℕ
  pub free_cids : List ℕ

abbrev pub cid_first : ℕ
cid_first = 0x100

abbrev pub cid_drop : ℕ
cid_drop = 0x900

abbrev pub cid_default : ℕ
cid_default = 0x9999

unfoldable pub new_minors : Minors
new_minors = record { cid_by_ip = []; next_cid = cid_first; free_cids = [] }

abbrev pub u16 : ℕ → ℕ
u16 n = n % 65536

-- The test of the loop of getCID: the minor is not for a peer.
abbrev pub is_reserved : ℕ → Bool
is_reserved n = ltb n cid_first || (n == cid_drop || n == cid_default)

-- The loop of getCID, with fuel.
unfoldable pub skip_reserved : ℕ → ℕ → ℕ
skip_reserved zero n = n
skip_reserved (suc fuel) n =
    let rest = skip_reserved fuel (u16 (n + 1)) in if is_reserved n then rest else n

-- More rounds than the loop ever makes: 256 to reach cid_first from 0, and one more.
abbrev pub skip_fuel : ℕ
skip_fuel = 260

-- Gives `ip` the minor c.
unfoldable pub assign : String → ℕ → Minors → Minors
assign ip c m = record m { cid_by_ip = insert ip c m.cid_by_ip }

-- The last lines of getCID: a minor that was never used, or no longer since the last wrap.
unfoldable pub fresh_cid : String → Minors → ℕ × Minors
fresh_cid ip m =
    let c = skip_reserved skip_fuel m.next_cid in
    (c, assign ip c (record m { next_cid = u16 (c + 1) }))

new_cid : List ℕ → String → Minors → ℕ × Minors
new_cid [] ip m = fresh_cid ip m
new_cid (c ∷ free) ip m = (c, assign ip c (record m { free_cids = free }))

known_or_new : Option ℕ → String → Minors → ℕ × Minors
unfolding new_cid
known_or_new (some c) ip m = (c, m)
known_or_new none ip m = new_cid m.free_cids ip m

module _ {IP : Type 0} (net : Addresses IP) where
  -- `net.ParseIP(ip).To4() != nil`
  unfoldable pub is_ipv4 : String → Bool
  is_ipv4 ip = elim (net.parse_ip ip) [ none ↦ false | some a ↦ net.is_v4 a ]

  -- `none` is the error for a text that is no IPv4 address.
  unfoldable pub get_cid : String → Minors → Option ℕ × Minors
  unfolding known_or_new
  get_cid ip m =
      if is_ipv4 ip
      then (let (c, m') = known_or_new (lookup ip m.cid_by_ip) ip m in (some c, m'))
      else (none, m)

-- The minor of a peer that is out of view for good goes back to the free ones.
release_found : Option ℕ → String → Minors → Minors
release_found none ip m = m
release_found (some c) ip m = record m {
  cid_by_ip = delete ip m.cid_by_ip;
  free_cids = c ∷ m.free_cids;
}

unfoldable pub release : String → Minors → Minors
unfolding release_found
release ip m = release_found (lookup ip m.cid_by_ip) ip m
