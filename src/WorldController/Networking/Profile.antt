-- ===== src/WorldController/Networking/Profile.antt =====
-- The rules of one peer: `replaceIPProfile`, `addIngressFilters`, `removeIPProfile` and
-- `removeIngressFilters` of
-- internal-components/world-controller/internal/networking/networking.go.
pub mod Outcome
pub mod Ingress
pub mod Removed
use yass_simulator.Base.{
  ℕ, ◌+◌, ◌*◌, ◌/◌, String, Bool, true, false, ◌&&◌, ◌||◌, Option, none, some, List, [], ◌∷◌, ◌++◌,
  ◌==◌, nat_eq, if◌then◌else◌,
}
use yass_simulator.Base.Int.{ℤ, pos, uint64}
use yass_simulator.Base.Float.{Floats}
use yass_simulator.WorldController.Networking.Param.{NetworkParam}
use yass_simulator.WorldController.Networking.Minors.{Addresses, Minors, get_cid}
use yass_simulator.WorldController.Networking.Netlink.{
  Protocol, tcp, udp, icmp, Flower, Filter, flower, other_filter, Qdisc, Request, class_replace,
  class_del, netem_replace, qdisc_list, qdisc_del, egress_list, ingress_list, filter_replace,
  filter_add, filter_del, Kernel, Failure, bad_address, World, make_handle, Result, ok, err, Action,
  ◌>>=◌, ◌>>◌, pure, fail, ignore, for_each, send, send_add, list_filters, list_qdiscs, if_listed,
}

-- managedPortRanges, for tcp and then for udp, in the order of the two loops.
abbrev pub managed_flows : List (Protocol × ℕ × ℕ)
managed_flows = (tcp, 4000, 5000) ∷ (tcp, 9000, 9999) ∷ (udp, 4000, 5000) ∷ (udp, 9000, 9999) ∷ []

module _ {F IP : Type 0} (net : Addresses IP) (k : Kernel F IP) where
  -- getCID on the minors of the handler.
  cid_result : Option ℕ → String → Result (Failure F IP) ℕ
  cid_result none ip = err (bad_address ip)
  cid_result (some c) ip = ok c

  unfoldable pub allocate : String → Action F IP ℕ
  unfolding cid_result
  allocate ip w = let (c, m) = get_cid net ip w.minors in (cid_result c ip, record w { minors = m })

  unfoldable pub parse_or_fail : Option IP → String → Action F IP IP
  parse_or_fail none ip = fail (bad_address ip)
  parse_or_fail (some a) ip = pure a

  abbrev parse : String → Action F IP IP
  parse ip = parse_or_fail (net.parse_ip ip) ip

  -- Deletes the listed flower filters that pass a test. Errors are dropped.
  delete_if : (Flower IP → Bool) → Filter IP → Action F IP (Unit {0})
  delete_if test (flower f) = if test f then ignore (send k (filter_del f)) else pure tt
  delete_if test other_filter = pure tt

  unfoldable pub delete_filters : (Flower IP → Bool) → List (Filter IP) → Action F IP (Unit {0})
  unfolding delete_if
  delete_filters test fs = for_each fs (delete_if test)

  -- `fl.SrcIP != nil && fl.SrcIP.Equal(srcIP)`
  unfoldable pub is_from : IP → Flower IP → Bool
  is_from src f = elim f.src_ip [ none ↦ false | some a ↦ net.ip_equal a src ]

  unfoldable pub remove_ingress_filters : String → Action F IP (Unit {0})
  remove_ingress_filters ip = do
    src ← parse ip
    filters ← list_filters k ingress_list
    delete_filters (is_from src) filters

  unfoldable pub ingress_flower : IP → Bool → Protocol → ℕ → ℕ → Flower IP
  ingress_flower src drop p low high = record {
    ingress = true;
    class_id = 0;
    src_ip = some src;
    dest_ip = none;
    protocol = p;
    port_min = low;
    port_max = high;
    drop = drop;
  }

  unfoldable pub add_ingress_filters : IP → Bool → Action F IP (Unit {0})
  add_ingress_filters src drop = do
    ignore (remove_ingress_filters (net.ip_string src))
    for_each managed_flows
        (λ (p, low, high). send_add k (filter_add (ingress_flower src drop p low high)))
    send_add k (filter_add (ingress_flower src drop icmp 0 0))

  unfoldable pub egress_flower : ℕ → IP → Protocol → ℕ → ℕ → Flower IP
  egress_flower class dst p low high = record {
    ingress = false;
    class_id = class;
    src_ip = none;
    dest_ip = some dst;
    protocol = p;
    port_min = low;
    port_max = high;
    drop = false;
  }

  abbrev steers_to : ℕ → Flower IP → Bool
  steers_to class f = f.class_id == class

  -- `attrs.Parent == classId || (attrs.Handle>>16) == uint32(cid)`
  is_of : ℕ → Qdisc → Bool
  is_of cid q = q.parent == make_handle 1 cid || q.handle / 65536 == cid

  pub delete_qdiscs : ℕ → List Qdisc → Action F IP (Unit {0})
  unfolding is_of
  delete_qdiscs cid qs =
      for_each qs (λ q. if is_of cid q then ignore (send k (qdisc_del q)) else pure tt)

  -- removeIPProfile behind the call of getCID.
  unfoldable pub remove_rules : String → ℕ → Action F IP (Unit {0})
  unfolding delete_qdiscs
  remove_rules ip cid = do
    let class = make_handle 1 cid
    if_listed (list_filters k egress_list) (delete_filters (steers_to class))
    ignore (remove_ingress_filters ip)
    if_listed (list_qdiscs k) (delete_qdiscs cid)
    ignore (send k (class_del class))

  unfoldable pub remove_ip_profile : String → Action F IP (Unit {0})
  remove_ip_profile ip = do cid ← allocate ip; remove_rules ip cid

module _ {F IP : Type 0} (fl : Floats F) (net : Addresses IP) (k : Kernel F IP) where
  -- The delay in microseconds, kept within a uint32.
  unfoldable pub latency_us : F → ℕ
  latency_us delay =
      let us = fl.mul delay (fl.of_int (pos 1000)) in
      if fl.lt us (fl.of_int (pos 0))
      then fl.to_uint32 (fl.of_int (pos 0))
      else if fl.lt (fl.of_int (pos 4294967295)) us
      then fl.to_uint32 (fl.of_int (pos 4294967295))
      else fl.to_uint32 us

  -- replaceIPProfile behind the call of getCID.
  unfoldable pub replace_rules : NetworkParam F → ℕ → Action F IP (Unit {0})
  replace_rules p cid = do
    dst ← parse net k p.to_ip
    let class = make_handle 1 cid
    send k (class_replace class (uint64 p.bandwidth))
    send k (netem_replace class (make_handle cid 0) (latency_us p.package_delay) p.package_loss)
    if_listed (list_filters k egress_list) (delete_filters net k (steers_to net k class))
    for_each managed_flows
        (λ (q, low, high). send k (filter_replace (egress_flower net k class dst q low high)))
    send k (filter_replace (egress_flower net k class dst icmp 0 0))
    add_ingress_filters net k dst false

  unfoldable pub replace_ip_profile : NetworkParam F → Action F IP (Unit {0})
  replace_ip_profile p = do cid ← allocate net k p.to_ip; replace_rules p cid
