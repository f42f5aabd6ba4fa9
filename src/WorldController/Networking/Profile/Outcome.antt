-- ===== src/WorldController/Networking/Profile/Outcome.antt =====
-- How the actions on a peer's rules end, and what they do to the minors
-- (internal-components/world-controller/internal/networking/networking.go).
use yass_simulator.Base.{
  ℕ, String, ◌≡◌, Bool, Option, none, some, List, if◌then◌else◌, Bool-cases, Option-cases, inl, inr,
}
use yass_simulator.Base.Float.{Floats}
use yass_simulator.WorldController.Networking.Param.{NetworkParam}
use yass_simulator.WorldController.Networking.Minors.{Addresses, get_cid, is_ipv4}
use yass_simulator.WorldController.Networking.Netlink.{
  Flower, Filter, flower, other_filter, Qdisc, Kernel, bad_address, World, ok, err, Action, ◌>>=◌,
}
use yass_simulator.WorldController.Networking.Netlink.Rules.{
  Succeeds, KeepsMinors, success_rules, minor_rules,
}
use yass_simulator.WorldController.Networking.Profile.{
  allocate, cid_result, parse_or_fail, delete_if, delete_filters, delete_qdiscs,
  remove_ingress_filters, add_ingress_filters, replace_ip_profile, remove_ip_profile, remove_rules,
  replace_rules,
}

module _ {F IP : Type 0} (net : Addresses IP) (k : Kernel F IP) where
  delete_if-Succeeds : (test : Flower IP → Bool) (f : Filter IP) → Succeeds (delete_if net k test f)
  unfolding delete_if
  delete_if-Succeeds test (flower f) = search success_rules
  delete_if-Succeeds test other_filter = search success_rules

  pub delete_filters-Succeeds :
      (test : Flower IP → Bool) (fs : List (Filter IP)) → Succeeds (delete_filters net k test fs)
  unfolding delete_filters
  delete_filters-Succeeds test fs = search (success_rules, delete_if-Succeeds)

  pub delete_qdiscs-Succeeds : (c : ℕ) (qs : List Qdisc) → Succeeds (delete_qdiscs net k c qs)
  unfolding delete_qdiscs
  delete_qdiscs-Succeeds c qs = search success_rules

  delete_if-KeepsMinors :
      (test : Flower IP → Bool) (f : Filter IP) → KeepsMinors (delete_if net k test f)
  unfolding delete_if
  delete_if-KeepsMinors test (flower f) = search minor_rules
  delete_if-KeepsMinors test other_filter = search minor_rules

  delete_filters-KeepsMinors :
      (test : Flower IP → Bool) (fs : List (Filter IP)) → KeepsMinors (delete_filters net k test fs)
  unfolding delete_filters
  delete_filters-KeepsMinors test fs = search (minor_rules, delete_if-KeepsMinors)

  delete_qdiscs-KeepsMinors : (c : ℕ) (qs : List Qdisc) → KeepsMinors (delete_qdiscs net k c qs)
  unfolding delete_qdiscs
  delete_qdiscs-KeepsMinors c qs = search minor_rules

  parse_or_fail-KeepsMinors : (o : Option IP) (ip : String) → KeepsMinors (parse_or_fail net k o ip)
  unfolding parse_or_fail
  parse_or_fail-KeepsMinors none ip = search minor_rules
  parse_or_fail-KeepsMinors (some a) ip = search minor_rules

  pub remove_ingress_filters-KeepsMinors :
      (ip : String) → KeepsMinors (remove_ingress_filters net k ip)
  unfolding remove_ingress_filters
  remove_ingress_filters-KeepsMinors ip =
      search (minor_rules, parse_or_fail-KeepsMinors, delete_filters-KeepsMinors)

  pub add_ingress_filters-KeepsMinors :
      (src : IP) (drop : Bool) → KeepsMinors (add_ingress_filters net k src drop)
  unfolding add_ingress_filters
  add_ingress_filters-KeepsMinors src drop =
      search (minor_rules, remove_ingress_filters-KeepsMinors)

  remove_rules-Succeeds : (ip : String) (cid : ℕ) → Succeeds (remove_rules net k ip cid)
  unfolding remove_rules
  remove_rules-Succeeds ip cid =
      search (success_rules, delete_filters-Succeeds, delete_qdiscs-Succeeds)

  remove_rules-KeepsMinors : (ip : String) (cid : ℕ) → KeepsMinors (remove_rules net k ip cid)
  unfolding remove_rules
  remove_rules-KeepsMinors ip cid = search (
    minor_rules, delete_filters-KeepsMinors, delete_qdiscs-KeepsMinors,
    remove_ingress_filters-KeepsMinors,
  )

  -- An action behind getCID has getCID's effect on the minors.
  behind_allocate :
      (f : ℕ → Action F IP (Unit {0})) (ip : String) (w : World F IP)
      → ((c : ℕ) → KeepsMinors (f c))
      → ((allocate net k ip >>= f) w).1.minors ≡ (get_cid net ip w.minors).1
  unfolding ◌>>=◌ allocate cid_result
  behind_allocate f ip w keeps = elim (Option-cases (get_cid net ip w.minors).0) [
    | inl failed ↦ rw failed
    | inr (c, e) ↦ rw e ((keeps c).kept (record w { minors = (get_cid net ip w.minors).1 }))
  ]

  pub minors-remove_ip_profile :
      (ip : String) (w : World F IP)
      → (remove_ip_profile net k ip w).1.minors ≡ (get_cid net ip w.minors).1
  unfolding remove_ip_profile
  minors-remove_ip_profile ip w =
      behind_allocate (remove_rules net k ip) ip w (remove_rules-KeepsMinors ip)

  -- removeIPProfile ends without an error for every IPv4 address, whatever the kernel answers, and
  -- with an error for every other text.
  pub remove_ip_profile_lem :
      (ip : String) (w : World F IP)
      → (remove_ip_profile net k ip w).0 ≡ (if is_ipv4 net ip then ok tt else err (bad_address ip))
  unfolding remove_ip_profile ◌>>=◌ allocate cid_result get_cid
  remove_ip_profile_lem ip w = elim (Bool-cases (is_ipv4 net ip)) [
    | inl v4 ↦ rw v4 ((remove_rules-Succeeds ip _).at _)
    | inr other ↦ rw other
  ]

module _ {F IP : Type 0} (fl : Floats F) (net : Addresses IP) (k : Kernel F IP) where
  replace_rules-KeepsMinors :
      (p : NetworkParam F) (cid : ℕ) → KeepsMinors (replace_rules fl net k p cid)
  unfolding replace_rules
  replace_rules-KeepsMinors p cid =
      search
        (
          minor_rules,
          parse_or_fail-KeepsMinors net k,
          delete_filters-KeepsMinors net k,
          add_ingress_filters-KeepsMinors net k,
        )
        depth 12

  pub minors-replace_ip_profile :
      (p : NetworkParam F) (w : World F IP)
      → (replace_ip_profile fl net k p w).1.minors ≡ (get_cid net p.to_ip w.minors).1
  unfolding replace_ip_profile
  minors-replace_ip_profile p w =
      behind_allocate net k (replace_rules fl net k p) p.to_ip w (replace_rules-KeepsMinors p)
