-- ===== src/WorldController/Networking/Profile/Ingress.antt =====
-- The ingress filters of a peer: `addIngressFilters` of
-- internal-components/world-controller/internal/networking/networking.go.
use yass_simulator.Base.{ℕ, ◌≡◌, refl, sym, ap, ◌∙◌, Bool, List, [], ◌∷◌, ◌++◌, map}
use mathlib.Core.List.{append_assoc, append-nil}
use yass_simulator.WorldController.Networking.Minors.{Addresses}
use yass_simulator.WorldController.Networking.Netlink.{
  Protocol, icmp, Request, filter_add, Kernel, Failure, World, Result, ok, err, Action, continue,
  ◌>>◌, pure, ignore, for_each, send_add,
}
use yass_simulator.WorldController.Networking.Profile.{
  ingress_flower, add_ingress_filters, remove_ingress_filters, managed_flows,
}

-- A request that was not refused for another reason than that the filter exists is on the record.
module _ {F IP : Type 0} (k : Kernel F IP) where
  -- What the kernel was asked after a run that ended without an error.
  pub record Asked (m : Action F IP (Unit {0})) (rs : List (Request F IP)) : Type 0 where
    pub asked : (w : World F IP) → (m w).0 ≡ ok tt → (m w).1.requests ≡ w.requests ++ rs

  Asked-pure : Asked (pure tt) []
  unfolding pure
  Asked-pure = record { asked = λ w e. sym (append-nil w.requests) }

  Asked-send_add : (r : Request F IP) → Asked (send_add k r) (r ∷ [])
  unfolding send_add
  Asked-send_add r = record { asked = λ w e. refl }

  Asked-continue :
      (r : Result (Failure F IP) (Unit {0})) (n : Action F IP (Unit {0})) (w : World F IP)
      (before qs rs : List (Request F IP))
      → (r ≡ ok tt → w.requests ≡ before ++ qs)
      → Asked n rs
      → (continue r (λ _. n) w).0 ≡ ok tt
      → (continue r (λ _. n) w).1.requests ≡ before ++ (qs ++ rs)
  Asked-continue (ok u) n w before qs rs e a h =
      a.asked w h ∙ (ap (λ l. l ++ rs) (e refl) ∙ append_assoc before qs rs)
  Asked-continue (err x) n w before qs rs e a h = cc

  Asked-then :
      (m n : Action F IP (Unit {0})) (qs rs : List (Request F IP))
      → Asked m qs
      → Asked n rs
      → Asked (m >> n) (qs ++ rs)
  unfolding ◌>>◌
  Asked-then m n qs rs a b = record {
    asked = λ w h. Asked-continue (m w).0 n (m w).1 w.requests qs rs (a.asked w) b h;
  }

  Asked-for_each :
      {A : Type 0} (xs : List A) (f : A → Request F IP)
      → Asked (for_each xs (λ x. send_add k (f x))) (map f xs)
  unfolding for_each
  Asked-for_each [] f = Asked-pure
  Asked-for_each (x ∷ xs) f =
      Asked-then (send_add k (f x)) (for_each xs (λ y. send_add k (f y))) (f x ∷ []) (map f xs)
        (Asked-send_add (f x)) (Asked-for_each xs f)

module _ {F IP : Type 0} (net : Addresses IP) (k : Kernel F IP) where
  abbrev pub filter_of : IP → Bool → Protocol × ℕ × ℕ → Request F IP
  filter_of src drop (p, low, high) = filter_add (ingress_flower net k src drop p low high)

  -- The five filters of a peer: its managed ports, in tcp and udp, and icmp.
  abbrev pub peer_filters : IP → Bool → List (Request F IP)
  peer_filters src drop =
      map (filter_of src drop) managed_flows
      ++ (filter_add (ingress_flower net k src drop icmp 0 0) ∷ [])

  -- addIngressFilters, where it ends without an error, has asked the kernel last for the filters of
  -- the peer on each managed range of ports in tcp and in udp, and on icmp, all with the action that
  -- was wanted; before that, it has asked only to list and delete the peer's filters.
  pub requests-add_ingress_filters :
      (src : IP) (drop : Bool) (w : World F IP)
      → (add_ingress_filters net k src drop w).0 ≡ ok tt
      → (add_ingress_filters net k src drop w).1.requests
        ≡ (remove_ingress_filters net k (net.ip_string src) w).1.requests ++ peer_filters src drop
  unfolding add_ingress_filters ◌>>◌ ignore
  requests-add_ingress_filters src drop w h =
      let icmp_last = filter_add (ingress_flower net k src drop icmp 0 0) in
      (Asked-then k (for_each managed_flows (λ x. send_add k (filter_of src drop x)))
          (send_add k icmp_last) (map (filter_of src drop) managed_flows) (icmp_last ∷ [])
          (Asked-for_each k managed_flows (filter_of src drop)) (Asked-send_add k icmp_last)).asked
        (remove_ingress_filters net k (net.ip_string src) w).1 h
