-- ===== src/WorldController/Networking/Handler/Steady.antt =====
-- `Update` of internal-components/world-controller/internal/networking/networking.go where nothing
-- of note has changed.
use yass_simulator.Base.{
  String, ◌≡◌, ◌≢◌, refl, sym, ap, ◌∙◌, Bool, true, false, Option, none, some, List, [], ◌∷◌, arith,
  string_eq, string_beq_iff, if◌then◌else◌, All, Distinct, Bool-cases, inl, inr,
}
use mathlib.Core.Option
use yass_simulator.Base.Map.{Map, lookup, insert, keys, lookup_absent}
use yass_simulator.Base.Float.{Floats}
use yass_simulator.WorldController.Networking.Param.{NetworkParam, is_almost_equal}
use yass_simulator.WorldController.Networking.Minors.{Addresses}
use yass_simulator.WorldController.Networking.Netlink.{Kernel}
use yass_simulator.WorldController.Networking.Handler.{
  Handler, Pass, none_visible, unchanged, update_param, update_params, retire, retire_all,
  start_pass, full_pass, update, is_clear,
}
use yass_simulator.WorldController.Networking.Handler.View.{
  is_listed, update_enabled, profiles-update_params, Distinct-update_params, none_visible_lem,
  keys-none_visible,
}

module _ {F IP : Type 0} (fl : Floats F) (net : Addresses IP) (k : Kernel F IP) where
  -- The peer is known with almost equal parameters.
  abbrev pub IsKnown : Handler F IP → NetworkParam F → Type 0
  IsKnown h p =
      (old : NetworkParam F) × (lookup p.to_ip h.state ≡ some old)
      × (is_almost_equal fl old p ≡ true)

  unchanged_known :
      (h : Handler F IP) (p : NetworkParam F)
      → is_clear h.overlay ≡ true
      → IsKnown h p
      → unchanged fl net k (lookup p.to_ip h.state) p h.overlay ≡ true
  unfolding unchanged
  unchanged_known h p clear (old, e, same) = rw (e, same, clear)

  update_param_known :
      (p : NetworkParam F) (s : Pass F IP)
      → is_clear s.handler.overlay ≡ true
      → IsKnown s.handler p
      → update_param fl net k p s
        ≡ record s { current_profiles = insert p.to_ip true s.current_profiles }
  unfolding update_param
  update_param_known p s clear known = rw (unchanged_known s.handler p clear known)

  update_params_known :
      (ps : List (NetworkParam F)) (s : Pass F IP)
      → is_clear s.handler.overlay ≡ true
      → All (IsKnown s.handler) ps
      → ((update_params fl net k ps s).handler ≡ s.handler)
        × ((update_params fl net k ps s).errors ≡ s.errors)
  unfolding update_params
  update_params_known [] s clear known = (refl, refl)
  update_params_known (p ∷ ps) s clear (here, rest) =
      rw (update_params, update_param_known p s clear here)
        (update_params_known ps
          (record s { current_profiles = insert p.to_ip true s.current_profiles }) clear rest)

  -- Peers that are all visible are all kept.
  retire_all_visible :
      (m : Map String Bool) (s : Pass F IP)
      → Distinct (keys m)
      → ((ip : String) → lookup ip m ≢ some false)
      → retire_all fl net k m s ≡ s
  unfolding retire_all retire lookup
  retire_all_visible [] s d v = refl
  retire_all_visible ((ip, true) ∷ m) s d v =
      retire_all_visible m s d.1
        (λ j e. ground (arith, v j, string_beq_iff ip j, lookup_absent ip m d.0))
  retire_all_visible ((ip, false) ∷ m) s d v = absurd (v ip (ground (arith, string_beq_iff ip ip)))

  not_hidden :
      (listed : Bool) (o : Option (NetworkParam F))
      → (o ≢ none → listed ≡ true)
      → (if listed then some true else Option.map (λ _. false) o) ≢ some false
  not_hidden true o h e = cc
  not_hidden false none h e = cc
  not_hidden false (some p) h e = cc (h (λ q. cc))

  full_pass_steady :
      (params : List (NetworkParam F)) (h : Handler F IP)
      → Distinct (keys h.state)
      → is_clear h.overlay ≡ true
      → All (IsKnown h) params
      → ((ip : String) → lookup ip h.state ≢ none → is_listed ip params ≡ true)
      → ((full_pass fl net k params h).errors ≡ []) × ((full_pass fl net k params h).handler ≡ h)
  unfolding full_pass start_pass
  full_pass_steady params h d clear known listed =
      let start : Pass F IP = record {
        handler = h;
        current_profiles = none_visible h.state;
        errors = [];
      } in
      let s = update_params fl net k params start in
      let known' = update_params_known params start clear known in
      let all_visible : retire_all fl net k s.current_profiles s ≡ s =
        retire_all_visible s.current_profiles s
          (Distinct-update_params fl net k params start (rw (keys-none_visible fl net k h.state) d))
          (λ ip e. not_hidden (is_listed ip params) (lookup ip h.state) (listed ip) (
            sym (
              profiles-update_params fl net k params start ip
              ∙ rw (none_visible_lem fl net k h.state ip))
            ∙ e)) in
      (
        ap (λ (t : Pass F IP). t.errors) all_visible ∙ known'.1,
        ap (λ (t : Pass F IP). t.handler) all_visible ∙ known'.0,
      )

  -- With no fault active, where every parameter is almost equal to what is known of its peer and
  -- every known peer is among the parameters, Update changes nothing and sends nothing to the kernel.
  pub update_steady :
      (params : List (NetworkParam F)) (h : Handler F IP)
      → Distinct (keys h.state)
      → is_clear h.overlay ≡ true
      → All (IsKnown h) params
      → ((ip : String) → lookup ip h.state ≢ none → is_listed ip params ≡ true)
      → update fl net k params h ≡ ([], h)
  update_steady params h d clear known listed = elim (Bool-cases h.disabled) [
    | inl off ↦ unfold update in simp off
    | inr on ↦
        rw (update_enabled fl net k params h on)
          (let (e, f) = full_pass_steady params h d clear known listed in λ i. (e i, f i))
  ]
