-- ===== src/WorldController/Networking/Handler/Allocated.antt =====
-- `Update` of internal-components/world-controller/internal/networking/networking.go keeps the HTB
-- minors of the peers apart.
use yass_simulator.Base.{
  ℕ, suc, ◌+◌, ◌*◌, ◌≤◌, ◌<◌, String, ◌≡◌, refl, subst, ap, ◌∙◌, Bool, true, false, Option, none,
  some, List, [], ◌∷◌, arith, string_eq, length, Bool-cases, inl, inr,
}
use yass_simulator.Base.Map.{Map, lookup, length-insert}
use yass_simulator.Base.Float.{Floats}
use yass_simulator.WorldController.Networking.Param.{NetworkParam, is_fully_blocking}
use yass_simulator.WorldController.Networking.Overlay.{Overlay, apply_overlay}
use yass_simulator.WorldController.Networking.Minors.{Addresses, Minors, get_cid}
use yass_simulator.WorldController.Networking.Minors.Allocation.{IsAllocated}
use yass_simulator.WorldController.Networking.Minors.Counter.{
  IsReady, get_cid-IsReady, release-IsReady,
}
use yass_simulator.WorldController.Networking.Netlink.{
  Kernel, Failure, World, Result, ok, err, Action, continue, ◌>>◌,
}
use yass_simulator.WorldController.Networking.Netlink.Rules.{KeepsMinors, minor_rules}
use yass_simulator.WorldController.Networking.Profile.{remove_ip_profile}
use yass_simulator.WorldController.Networking.Profile.Outcome.{
  minors-remove_ip_profile, minors-replace_ip_profile, add_ingress_filters-KeepsMinors,
}
use yass_simulator.WorldController.Networking.Handler.{
  Handler, Pass, none_visible, attempt, install, drop_ingress, unchanged, stored, update_param,
  update_params, forgotten, retired, retire, retire_all, start_pass, full_pass, update,
}
use yass_simulator.WorldController.Networking.Handler.View.{update_enabled, profiles-update_param}

module _ {F IP : Type 0} (fl : Floats F) (net : Addresses IP) (k : Kernel F IP) where
  drop_ingress-KeepsMinors : (o : Option IP) → KeepsMinors (drop_ingress fl net k o)
  unfolding drop_ingress
  drop_ingress-KeepsMinors none = search minor_rules
  drop_ingress-KeepsMinors (some dst) = add_ingress_filters-KeepsMinors net k dst true

  minors-continue :
      (r : Result (Failure F IP) (Unit {0})) (n : Action F IP (Unit {0})) (w : World F IP)
      → KeepsMinors n
      → (continue r (λ _. n) w).1.minors ≡ w.minors
  minors-continue (ok u) n w q = q.kept w
  minors-continue (err e) n w q = refl

  minors-install :
      (b : Bool) (p : NetworkParam F) (w : World F IP)
      → (install fl net k b p.to_ip p w).1.minors ≡ (get_cid net p.to_ip w.minors).1
  unfolding install ◌>>◌
  minors-install b p w = elim (Bool-cases (is_fully_blocking fl p)) [
    | inl blocked ↦ rw blocked (
        minors-continue (remove_ip_profile net k p.to_ip w).0 _
          (remove_ip_profile net k p.to_ip w).1 (search (minor_rules, drop_ingress-KeepsMinors))
        ∙ minors-remove_ip_profile net k p.to_ip w)
    | inr open_link ↦ rw open_link (minors-replace_ip_profile fl net k p w)
  ]

  abbrev minors_of : Pass F IP → Minors
  minors_of s = s.handler.world.minors

  to_ip-apply_overlay : (o : Overlay) (p : NetworkParam F) → (apply_overlay fl o p).to_ip ≡ p.to_ip
  unfolding apply_overlay
  to_ip-apply_overlay o p = ground arith

  minors-install_overlay :
      (o : Overlay) (p : NetworkParam F) (w : World F IP)
      → (install fl net k o.black_hole p.to_ip (apply_overlay fl o p) w).1.minors
        ≡ (get_cid net p.to_ip w.minors).1
  minors-install_overlay o p w =
      subst
        (λ ip.
          (install fl net k o.black_hole ip (apply_overlay fl o p) w).1.minors
          ≡ (get_cid net ip w.minors).1)
        (to_ip-apply_overlay o p) (minors-install o.black_hole (apply_overlay fl o p) w)

  update_param-IsReady :
      (n : ℕ) (p : NetworkParam F) (s : Pass F IP)
      → IsReady n (minors_of s)
      → n < 65535
      → IsReady (n + 2) (minors_of (update_param fl net k p s))
  unfolding update_param attempt stored
  update_param-IsReady n p s r room =
      elim (Bool-cases (unchanged fl net k (lookup p.to_ip s.handler.state) p s.handler.overlay)) [
        | inl same ↦
            rw same (record { allocated = r.allocated; counter = omega (arith, r.counter) })
        | inr new ↦
            rw (new, minors-install_overlay s.handler.overlay p s.handler.world)
              (get_cid-IsReady net n p.to_ip (minors_of s) r room)
      ]

  update_params-IsReady :
      (n : ℕ) (ps : List (NetworkParam F)) (s : Pass F IP)
      → IsReady n (minors_of s)
      → n + 2 * length ps < 65535
      → IsReady (n + 2 * length ps) (minors_of (update_params fl net k ps s))
  unfolding update_params
  update_params-IsReady n [] s r room = subst (λ b. IsReady b (minors_of s)) (omega arith) r
  update_params-IsReady n (p ∷ ps) s r room =
      subst (λ b. IsReady b (minors_of (update_params fl net k ps (update_param fl net k p s))))
        (omega arith)
        (update_params-IsReady (n + 2) ps (update_param fl net k p s)
          (update_param-IsReady n p s r (omega arith)) (omega arith))

  length-profiles :
      (ps : List (NetworkParam F)) (s : Pass F IP)
      → length (update_params fl net k ps s).current_profiles
        ≤ length s.current_profiles + length ps
  unfolding update_params
  length-profiles [] s = omega arith
  length-profiles (p ∷ ps) s = omega (
    arith,
    length-profiles ps (update_param fl net k p s),
    ap (λ (m : Map String Bool). length m) (profiles-update_param fl net k p s),
    length-insert p.to_ip true s.current_profiles,
  )

  retired-IsReady :
      (n : ℕ) (r : Result (Failure F IP) (Unit {0})) (ip : String) (s : Pass F IP)
      → IsReady n (minors_of s)
      → IsReady n (minors_of (retired fl net k r ip s))
  unfolding retired forgotten
  retired-IsReady n (ok u) ip s h = release-IsReady n ip (minors_of s) h
  retired-IsReady n (err e) ip s h = h

  retire-IsReady :
      (n : ℕ) (ip : String) (visible : Bool) (s : Pass F IP)
      → IsReady n (minors_of s)
      → n < 65535
      → IsReady (n + 2) (minors_of (retire fl net k ip visible s))
  unfolding retire
  retire-IsReady n ip true s h room = record {
    allocated = h.allocated;
    counter = omega (arith, h.counter);
  }
  retire-IsReady n ip false s h room =
      retired-IsReady (n + 2) ((remove_ip_profile net k ip s.handler.world).0) ip
        (record s {
          handler = record (s.handler) { world = (remove_ip_profile net k ip s.handler.world).1 };
        })
        (rw minors-remove_ip_profile (get_cid-IsReady net n ip (minors_of s) h room))

  retire_all-IsReady :
      (n : ℕ) (m : Map String Bool) (s : Pass F IP)
      → IsReady n (minors_of s)
      → n + 2 * length m < 65535
      → IsReady (n + 2 * length m) (minors_of (retire_all fl net k m s))
  unfolding retire_all
  retire_all-IsReady n [] s h room = subst (λ b. IsReady b (minors_of s)) (omega arith) h
  retire_all-IsReady n ((ip, v) ∷ m) s h room =
      subst (λ b. IsReady b (minors_of (retire_all fl net k m (retire fl net k ip v s))))
        (omega arith)
        (retire_all-IsReady (n + 2) m (retire fl net k ip v s)
          (retire-IsReady n ip v s h (omega arith)) (omega arith))

  length-none_visible : (m : Map String (NetworkParam F)) → length (none_visible m) ≡ length m
  unfolding none_visible
  length-none_visible [] = refl
  length-none_visible ((ip, p) ∷ m) = ap suc (length-none_visible m)

  full_pass-IsReady :
      (params : List (NetworkParam F)) (h : Handler F IP)
      → IsAllocated h.world.minors
      → h.world.minors.next_cid + 2 * (length h.state + 2 * length params) < 65535
      → IsAllocated (full_pass fl net k params h).handler.world.minors
  unfolding full_pass start_pass
  full_pass-IsReady params h al room =
      let start : Pass F IP = record {
        handler = h;
        current_profiles = none_visible h.state;
        errors = [];
      } in
      let s = update_params fl net k params start in
      let n = h.world.minors.next_cid + 2 * length params in
      let r : IsReady n (minors_of s) =
        update_params-IsReady h.world.minors.next_cid params start
          (record { allocated = al; counter = omega arith }) (omega arith) in
      (retire_all-IsReady n s.current_profiles s r
        (omega (arith, length-profiles params start, length-none_visible h.state))).allocated

  -- Update keeps the minors allocated, whatever the kernel refuses, as long as the counter of the
  -- minors is far enough from the last uint16: no two peers share a class, and none has the drop
  -- class, the default class or the root.
  pub update-IsAllocated :
      (params : List (NetworkParam F)) (h : Handler F IP)
      → IsAllocated h.world.minors
      → h.world.minors.next_cid + 2 * (length h.state + 2 * length params) < 65535
      → IsAllocated (update fl net k params h).1.world.minors
  unfolding update
  update-IsAllocated params h al room = elim (Bool-cases h.disabled) [
    | inl off ↦ simp off al
    | inr on ↦ rw (update_enabled fl net k params h on) (full_pass-IsReady params h al room)
  ]
