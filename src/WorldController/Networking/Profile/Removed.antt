-- ===== src/WorldController/Networking/Profile/Removed.antt =====
-- The class of a peer at the end of its removal: `removeIPProfile` of
-- internal-components/world-controller/internal/networking/networking.go.
use yass_simulator.Base.{
  sym, ℕ, String, ◌≡◌, refl, ap, ◌∙◌, Option, none, some, List, [], ◌∷◌, ◌++◌,
}
use yass_simulator.WorldController.Networking.Minors.{Addresses, get_cid}
use yass_simulator.WorldController.Networking.Netlink.{
  Request, class_del, Kernel, World, Result, Failure, ok, err, bad_address, Action, continue, ◌>>◌,
  ◌>>=◌, ignore, send, make_handle,
}
use yass_simulator.WorldController.Networking.Netlink.Rules.{Succeeds, success_rules}
use yass_simulator.WorldController.Networking.Profile.{
  allocate, cid_result, remove_rules, remove_ip_profile,
}
use yass_simulator.WorldController.Networking.Profile.Outcome.{
  delete_filters-Succeeds, delete_qdiscs-Succeeds,
}

-- The action sends a request, and none behind it.
record EndsWith {F IP : Type 0} (m : Action F IP (Unit {0})) (q : Request F IP) : Type 0 where
  before : World F IP → List (Request F IP)
  ends : (w : World F IP) → (m w).1.requests ≡ before w ++ (q ∷ [])

EndsWith-then :
    {F IP : Type 0} (m n : Action F IP (Unit {0})) (q : Request F IP)
    → Succeeds m
    → EndsWith n q
    → EndsWith (m >> n) q
unfolding ◌>>◌
EndsWith-then m n q fine last = record {
  before = λ w. last.before (m w).1;
  ends = λ w. ap (λ r. (continue r (λ _. n) (m w).1).1.requests) (fine.at w) ∙ last.ends (m w).1;
}

err-ok :
    {F IP : Type 0} (e : Failure F IP) → ¬ (Path (Result (Failure F IP) (Unit {0})) (err e) (ok tt))
err-ok e h = cc

module _ {F IP : Type 0} (net : Addresses IP) (k : Kernel F IP) where
  EndsWith-remove_rules :
      (ip : String) (cid : ℕ) → EndsWith (remove_rules net k ip cid) (class_del (make_handle 1 cid))
  unfolding remove_rules ignore send
  EndsWith-remove_rules ip cid =
      EndsWith-then _ _ _ (search (success_rules, delete_filters-Succeeds)) (
        EndsWith-then _ _ _ (search success_rules) (
          EndsWith-then _ _ _ (search (success_rules, delete_qdiscs-Succeeds))
            (record { before = λ w. w.requests; ends = λ w. refl })))

  removed_class :
      (found : Option ℕ) (ip : String) (w : World F IP)
      → (get_cid net ip w.minors).0 ≡ found
      → (remove_ip_profile net k ip w).0 ≡ ok tt
      → (cid : ℕ) × (before : List (Request F IP)) × ((get_cid net ip w.minors).0 ≡ some cid)
        × ((remove_ip_profile net k ip w).1.requests
            ≡ before ++ (class_del (make_handle 1 cid) ∷ []))
  unfolding remove_ip_profile ◌>>=◌ allocate cid_result
  removed_class none ip w same fine =
      let w' : World F IP = record w { minors = (get_cid net ip w.minors).1 } in
      let failed : (continue (cid_result net k (get_cid net ip w.minors).0 ip)
            (remove_rules net k ip) w').0
          ≡ err (bad_address ip) =
        ap (λ c. (continue (cid_result net k c ip) (remove_rules net k ip) w').0) same in
      absurd (err-ok _ (sym failed ∙ fine))
  removed_class (some cid) ip w same fine =
      let w' : World F IP = record w { minors = (get_cid net ip w.minors).1 } in
      (
        cid,
        (EndsWith-remove_rules ip cid).before w',
        same,
        ap (λ c. (continue (cid_result net k c ip) (remove_rules net k ip) w').1.requests) same
            ∙ (EndsWith-remove_rules ip cid).ends w',
      )

  -- The last request of removeIPProfile, where it ends without an error, is to delete the class of
  -- the minor that getCID has answered.
  pub requests-remove_ip_profile :
      (ip : String) (w : World F IP)
      → (remove_ip_profile net k ip w).0 ≡ ok tt
      → (cid : ℕ) × (before : List (Request F IP)) × ((get_cid net ip w.minors).0 ≡ some cid)
        × ((remove_ip_profile net k ip w).1.requests
            ≡ before ++ (class_del (make_handle 1 cid) ∷ []))
  requests-remove_ip_profile ip w fine = removed_class (get_cid net ip w.minors).0 ip w refl fine
