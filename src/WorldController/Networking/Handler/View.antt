-- ===== src/WorldController/Networking/Handler/View.antt =====
-- Which peers `Update` of internal-components/world-controller/internal/networking/networking.go
-- knows afterwards, and with which parameters.
use yass_simulator.Base.{
  String, ◌≡◌, refl, ap, ◌∙◌, Bool, true, false, ◌&&◌, ◌||◌, Option, none, some, List, [], ◌∷◌,
  arith, ◌==◌, string_eq, string_beq_iff, if◌then◌else◌, contains, Distinct, Bool-cases, inl, inr,
}
use mathlib.Core.Option
use yass_simulator.Base.Map.{
  Map, Distinct-insert, lookup, insert, keys, lookup-insert, lookup-delete,
}
use yass_simulator.Base.Float.{Floats}
use yass_simulator.WorldController.Networking.Param.{NetworkParam, is_almost_equal}
use yass_simulator.WorldController.Networking.Overlay.{Overlay}
use yass_simulator.WorldController.Networking.Minors.{Addresses, is_ipv4}
use yass_simulator.WorldController.Networking.Netlink.{Kernel}
use yass_simulator.WorldController.Networking.Profile.Outcome.{remove_ip_profile_lem}
use yass_simulator.WorldController.Networking.Handler.{
  Handler, Pass, none_visible, attempt, unchanged, stored, update_param, update_params, forgotten,
  retired, retire, retire_all, start_pass, update, full_pass, is_clear,
}

-- The address is among those of the parameters.
unfoldable pub is_listed : {F : Type 0} → String → List (NetworkParam F) → Bool
is_listed ip [] = false
is_listed ip (p ∷ ps) = p.to_ip == ip || is_listed ip ps

module _ {F : Type 0} (fl : Floats F) where
  -- New parameters of a peer replace the old ones, unless they are almost equal and no fault is
  -- active.
  unfoldable pub merged :
      Overlay → Option (NetworkParam F) → NetworkParam F → Option (NetworkParam F)
  merged o none p = some p
  merged o (some old) p = if is_almost_equal fl old p && is_clear o then some old else some p

  -- The parameters of one peer behind those received in turn.
  unfoldable pub settled :
      Overlay → String → Option (NetworkParam F) → List (NetworkParam F) → Option (NetworkParam F)
  settled o ip old [] = old
  settled o ip old (p ∷ ps) = settled o ip (if p.to_ip == ip then merged o old p else old) ps

module _ {F IP : Type 0} (fl : Floats F) (net : Addresses IP) (k : Kernel F IP) where
  overlay-update_param :
      (p : NetworkParam F) (s : Pass F IP)
      → (update_param fl net k p s).handler.overlay ≡ s.handler.overlay
  unfolding update_param attempt
  overlay-update_param p s = ground arith

  lookup-update_param :
      (p : NetworkParam F) (s : Pass F IP) (ip : String)
      → lookup ip (update_param fl net k p s).handler.state ≡ (
          if p.to_ip == ip
          then merged fl s.handler.overlay (lookup ip s.handler.state) p
          else lookup ip s.handler.state)
  unfolding update_param unchanged stored attempt merged
  lookup-update_param p s ip =
      ground (arith, lookup-insert p.to_ip ip p s.handler.state, string_beq_iff p.to_ip ip)

  pub profiles-update_param :
      (p : NetworkParam F) (s : Pass F IP)
      → (update_param fl net k p s).current_profiles ≡ insert p.to_ip true s.current_profiles
  unfolding update_param attempt
  profiles-update_param p s = ground arith

  lookup-update_params :
      (ps : List (NetworkParam F)) (s : Pass F IP) (ip : String)
      → lookup ip (update_params fl net k ps s).handler.state
        ≡ settled fl s.handler.overlay ip (lookup ip s.handler.state) ps
  unfolding update_params settled
  lookup-update_params [] s ip = refl
  lookup-update_params (p ∷ ps) s ip =
      lookup-update_params ps (update_param fl net k p s) ip
      ∙ rw (overlay-update_param p s, lookup-update_param p s ip)

  pub profiles-update_params :
      (ps : List (NetworkParam F)) (s : Pass F IP) (ip : String)
      → lookup ip (update_params fl net k ps s).current_profiles
        ≡ (if is_listed ip ps then some true else lookup ip s.current_profiles)
  unfolding update_params is_listed
  profiles-update_params [] s ip = refl
  profiles-update_params (p ∷ ps) s ip = ground (
    arith,
    profiles-update_params ps (update_param fl net k p s) ip,
    profiles-update_param p s,
    lookup-insert p.to_ip ip true s.current_profiles,
    string_beq_iff p.to_ip ip,
  )

  pub Distinct-update_params :
      (ps : List (NetworkParam F)) (s : Pass F IP)
      → Distinct (keys s.current_profiles)
      → Distinct (keys (update_params fl net k ps s).current_profiles)
  unfolding update_params
  Distinct-update_params [] s d = d
  Distinct-update_params (p ∷ ps) s d =
      Distinct-update_params ps (update_param fl net k p s)
        (rw profiles-update_param (Distinct-insert p.to_ip true s.current_profiles d))

  -- The end of a peer that is not visible.
  hidden : Bool → String → Option (NetworkParam F) → Option (NetworkParam F)
  hidden true ip o = o
  hidden false ip o = if is_ipv4 net ip then none else o

  lookup-retire :
      (j : String) (visible : Bool) (s : Pass F IP) (ip : String)
      → lookup ip (retire fl net k j visible s).handler.state ≡ (
          if j == ip
          then hidden visible ip (lookup ip s.handler.state)
          else lookup ip s.handler.state)
  unfolding retire retired forgotten hidden
  lookup-retire j true s ip = ground arith
  lookup-retire j false s ip = elim (Bool-cases (is_ipv4 net j)) [
    | inl v4 ↦
        rw (remove_ip_profile_lem net k j s.handler.world, v4)
          (ground (arith, lookup-delete j ip s.handler.state, string_beq_iff j ip, v4))
    | inr other ↦
        rw (remove_ip_profile_lem net k j s.handler.world, other)
          (ground (arith, string_beq_iff j ip, other))
  ]

  -- Peers that are no keys of the profiles are left alone.
  lookup-retire_all_absent :
      (m : Map String Bool) (s : Pass F IP) (ip : String)
      → contains (keys m) ip ≡ false
      → lookup ip (retire_all fl net k m s).handler.state ≡ lookup ip s.handler.state
  unfolding retire_all contains
  lookup-retire_all_absent [] s ip h = refl
  lookup-retire_all_absent ((j, v) ∷ m) s ip h =
      ground (arith, lookup-retire_all_absent m (retire fl net k j v s) ip, lookup-retire j v s ip)

  retire_found : Option Bool → String → Option (NetworkParam F) → Option (NetworkParam F)
  retire_found none ip o = o
  retire_found (some v) ip o = hidden v ip o

  lookup-retire_all :
      (m : Map String Bool) (s : Pass F IP) (ip : String)
      → Distinct (keys m)
      → lookup ip (retire_all fl net k m s).handler.state
        ≡ retire_found (lookup ip m) ip (lookup ip s.handler.state)
  unfolding retire_all lookup retire_found
  lookup-retire_all [] s ip d = refl
  lookup-retire_all ((j, v) ∷ m) s ip d = ground (
    arith,
    lookup-retire j v s ip,
    string_beq_iff j ip,
    lookup-retire_all_absent m (retire fl net k j v s) ip,
    lookup-retire_all m (retire fl net k j v s) ip d.1,
  )

  pub none_visible_lem :
      (m : Map String (NetworkParam F)) (ip : String)
      → lookup ip (none_visible m) ≡ Option.map (λ _. false) (lookup ip m)
  unfolding none_visible lookup
  none_visible_lem [] ip = refl
  none_visible_lem ((j, p) ∷ m) ip = ground (arith, none_visible_lem m ip)

  pub keys-none_visible : (m : Map String (NetworkParam F)) → keys (none_visible m) ≡ keys m
  unfolding none_visible
  keys-none_visible [] = refl
  keys-none_visible ((j, p) ∷ m) = ap (λ l. j ∷ l) (keys-none_visible m)

  settled_unlisted :
      (o : Overlay) (ip : String) (old : Option (NetworkParam F)) (ps : List (NetworkParam F))
      → is_listed ip ps ≡ false
      → settled fl o ip old ps ≡ old
  unfolding settled is_listed
  settled_unlisted o ip old [] h = refl
  settled_unlisted o ip old (p ∷ ps) h = ground (arith, settled_unlisted o ip old ps)

  pub update_enabled :
      (params : List (NetworkParam F)) (h : Handler F IP)
      → h.disabled ≡ false
      → update fl net k params h
        ≡ ((full_pass fl net k params h).errors, (full_pass fl net k params h).handler)
  unfolding update
  update_enabled params h enabled = simp enabled

  lookup-full_pass :
      (params : List (NetworkParam F)) (h : Handler F IP) (ip : String)
      → Distinct (keys h.state)
      → lookup ip (full_pass fl net k params h).handler.state ≡ (
          if is_listed ip params
          then settled fl h.overlay ip (lookup ip h.state) params
          else if is_ipv4 net ip
          then none
          else lookup ip h.state)
  unfolding full_pass start_pass
  lookup-full_pass params h ip d =
      let start : Pass F IP = record {
        handler = h;
        current_profiles = none_visible h.state;
        errors = [];
      } in
      let s = update_params fl net k params start in
      let d' : Distinct (keys s.current_profiles) =
        Distinct-update_params params start (rw keys-none_visible d) in
      lookup-retire_all s.current_profiles s ip d'
      ∙ (unfold retire_found hidden in
          ground (
            arith,
            profiles-update_params params start ip,
            none_visible_lem h.state ip,
            lookup-update_params params start ip,
            settled_unlisted h.overlay ip (lookup ip h.state) params,
          ))

  -- Update, where networking is enabled, leaves this of a peer: if it is among the new parameters,
  -- the last of them that was not almost equal to those before it (with a fault active, the last of
  -- them); if it is not, nothing, unless its address is no IPv4 address: that peer is kept as it
  -- was. This holds whatever the kernel refuses.
  pub lookup-update :
      (params : List (NetworkParam F)) (h : Handler F IP) (ip : String)
      → h.disabled ≡ false
      → Distinct (keys h.state)
      → lookup ip (update fl net k params h).1.state ≡ (
          if is_listed ip params
          then settled fl h.overlay ip (lookup ip h.state) params
          else if is_ipv4 net ip
          then none
          else lookup ip h.state)
  lookup-update params h ip enabled d =
      rw (update_enabled params h enabled) (lookup-full_pass params h ip d)
