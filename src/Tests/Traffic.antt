-- ===== src/Tests/Traffic.antt =====
-- The theorems on internal-components/world-controller/internal/networking at concrete inputs.
use yass_simulator.Base.{
  ℕ, some, ◌++◌, ℕ, ◌≡◌, refl, true, false, none, some, [], ◌∷◌, ◌++◌, arith, string_eq, contains,
}
use yass_simulator.Base.Int.{ℤ, pos}
use yass_simulator.Base.Map.{lookup}
use yass_simulator.Tests.Whole.{whole, three, willing}
use yass_simulator.WorldController.Networking.Param.{NetworkParam}
use yass_simulator.WorldController.Networking.Overlay.{Overlay, clear_overlay, apply_overlay}
use yass_simulator.WorldController.Networking.Overlay.Bounds.{
  apply_overlay-eq-effective_rate, effective_rate,
}
use yass_simulator.WorldController.Networking.Minors.{
  Minors, cid_first, new_minors, is_ipv4, get_cid, skip_reserved, skip_fuel, is_reserved,
}
use yass_simulator.WorldController.Networking.Minors.Allocation.{
  IsAllocated, new_minors-IsAllocated,
}
use yass_simulator.WorldController.Networking.Minors.Skipping.{skip_reserved-eq-next_usable}
use yass_simulator.WorldController.Networking.Minors.Wrap.{get_cid_after_wrap}
use yass_simulator.WorldController.Networking.Netlink.{
  World, ok, ◌>>=◌, ◌>>◌, pure, ignore, for_each, send, send_add, list_filters,
}
use yass_simulator.WorldController.Networking.Profile.{
  parse_or_fail, delete_filters, add_ingress_filters, remove_ingress_filters,
}
use yass_simulator.WorldController.Networking.Handler.{Handler, update}
use yass_simulator.WorldController.Networking.Handler.View.{is_listed, lookup-update}
use yass_simulator.WorldController.Networking.Handler.Allocated.{update-IsAllocated}

abbrev link : NetworkParam ℤ
link = record {
  to_ip = "10.0.0.1";
  package_loss = pos 2;
  package_delay = pos 30;
  bandwidth = pos 5000;
}

abbrev halved : Overlay
halved = record { external_cap_bps = pos 2000; reduction_pct = pos 50; black_hole = false }

abbrev hole : Overlay
hole = record clear_overlay { black_hole = true }

apply_overlay-eq-effective_rate_example :
    apply_overlay whole halved link ≡ record link { bandwidth = pos 2000 }
unfolding effective_rate
apply_overlay-eq-effective_rate_example =
    apply_overlay-eq-effective_rate whole 2000 50 5000 link (omega arith) (omega arith)
      (omega arith) refl

skip_reserved-eq-next_usable_example :
    (skip_reserved skip_fuel 0x900 ≡ 0x901) × (is_reserved 0x901 ≡ false)
skip_reserved-eq-next_usable_example = skip_reserved-eq-next_usable 0x900 (omega arith)

-- The counter has come round, and the first peer has the first minor.
abbrev wrapped : Minors
wrapped = record { cid_by_ip = ("10.0.0.1", cid_first) ∷ []; next_cid = 0; free_cids = [] }

get_cid_after_wrap_example :
    let m' = (get_cid three "10.0.0.2" wrapped).1 in
    (lookup "10.0.0.1" m'.cid_by_ip ≡ some cid_first)
    × (lookup "10.0.0.2" m'.cid_by_ip ≡ some cid_first)
unfolding lookup is_ipv4
get_cid_after_wrap_example =
    get_cid_after_wrap three "10.0.0.1" "10.0.0.2" wrapped refl refl refl refl refl

abbrev start : World ℤ ℕ
start = record {
  minors = record { cid_by_ip = []; next_cid = cid_first; free_cids = [] };
  requests = [];
}

start-IsAllocated : IsAllocated start.minors
unfolding new_minors
start-IsAllocated = new_minors-IsAllocated

filters_added : (add_ingress_filters three willing 1 true start).0 ≡ ok tt
unfolding add_ingress_filters remove_ingress_filters ◌>>=◌ ◌>>◌ pure ignore for_each send send_add
    list_filters delete_filters parse_or_fail
filters_added = refl

-- A handler that knows one peer.
abbrev one_peer : Handler ℤ ℕ
one_peer = record {
  state = ("10.0.0.1", link) ∷ [];
  disabled = false;
  overlay = clear_overlay;
  world = start;
}

abbrev other_link : NetworkParam ℤ
other_link = record link { to_ip = "10.0.0.2" }

lookup-update_example :
    lookup "10.0.0.1" (update whole three willing (other_link ∷ []) one_peer).1.state ≡ none
unfolding lookup is_listed is_ipv4 contains
lookup-update_example =
    lookup-update whole three willing (other_link ∷ []) one_peer "10.0.0.1" refl (refl, tt)

update-IsAllocated_example :
    IsAllocated (update whole three willing (other_link ∷ []) one_peer).1.world.minors
update-IsAllocated_example =
    update-IsAllocated whole three willing (other_link ∷ []) one_peer start-IsAllocated
      (omega arith)
