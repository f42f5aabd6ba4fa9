-- ===== src/WorldController/Networking/Handler.antt =====
-- `Handler` of internal-components/world-controller/internal/networking: `Update` of networking.go,
-- `ApplyFaultOverlay`, `ClearFaultOverlay` and `reapplyAllLocked` of overlay.go.
pub mod View
pub mod Steady
pub mod Allocated
pub mod Faults
use yass_simulator.Base.{
  ℕ, String, Bool, true, false, not, ◌&&◌, Option, none, some, List, [], ◌∷◌, ◌++◌, ◌==◌, string_eq,
  nat_eq, if◌then◌else◌,
}
use yass_simulator.Base.Int.{ℤ, pos, pos_part, neg_part}
use yass_simulator.Base.Map.{Map, lookup, insert, delete}
use yass_simulator.Base.Float.{Floats}
use yass_simulator.WorldController.Networking.Param.{
  NetworkParam, is_fully_blocking, is_almost_equal,
}
use yass_simulator.WorldController.Networking.Overlay.{Overlay, clear_overlay, apply_overlay}
use yass_simulator.WorldController.Networking.Minors.{Addresses, Minors, new_minors, release}
use yass_simulator.WorldController.Networking.Netlink.{
  Kernel, Failure, World, Result, ok, err, Action, ◌>>=◌, ◌>>◌, pure,
}
use yass_simulator.WorldController.Networking.Profile.{
  add_ingress_filters, replace_ip_profile, remove_ip_profile,
}

pub record Handler (F IP : Type 0) : Type 0 where
  pub state : Map String (NetworkParam F)
  pub disabled : Bool
  pub overlay : Overlay
  pub world : World F IP

-- The handler with networking disabled, or the one whose interface was found and whose ingress
-- qdisc was set up.
unfoldable pub new_handler : {F IP : Type 0} → Bool → Handler F IP
new_handler disabled = record {
  state = [];
  disabled = disabled;
  overlay = clear_overlay;
  world = record { minors = new_minors; requests = [] };
}

-- `!h.blackHole && h.externalCapBps == 0 && h.reductionPct == 0`
is_zero : ℤ → Bool
is_zero z = pos_part z == 0 && neg_part z == 0

unfoldable pub is_clear : Overlay → Bool
unfolding is_zero
is_clear o = not o.black_hole && (is_zero o.external_cap_bps && is_zero o.reduction_pct)

-- The variables of `Update`: the handler, currentProfiles, and the errors so far.
pub record Pass (F IP : Type 0) : Type 0 where
  pub handler : Handler F IP
  pub current_profiles : Map String Bool
  pub errors : List (Failure F IP)

unfoldable pub none_visible : {F : Type 0} → Map String (NetworkParam F) → Map String Bool
none_visible [] = []
none_visible ((ip, p) ∷ m) = (ip, false) ∷ none_visible m

module _ {F IP : Type 0} where
  abbrev noted : Result (Failure F IP) (Unit {0}) → List (Failure F IP) → List (Failure F IP)
  noted (ok u) errors = errors
  noted (err e) errors = errors ++ e ∷ []

  -- Runs an action of the kernel, and appends its error to the others.
  unfoldable pub attempt : Action F IP (Unit {0}) → Pass F IP → Pass F IP
  attempt m s =
      let (r, w) = m s.handler.world in
      record s { handler = record (s.handler) { world = w }; errors = noted r s.errors }

module _ {F IP : Type 0} (fl : Floats F) (net : Addresses IP) (k : Kernel F IP) where
  -- `if dst := net.ParseIP(ip); dst != nil { h.addIngressFilters(dst, true) }`
  drop_ingress : Option IP → Action F IP (Unit {0})
  drop_ingress none = pure tt
  drop_ingress (some dst) = add_ingress_filters net k dst true

  -- The rules of one peer from its effective parameters.
  unfoldable pub install : Bool → String → NetworkParam F → Action F IP (Unit {0})
  unfolding drop_ingress
  install black_hole ip effective =
      if is_fully_blocking fl effective
      then remove_ip_profile net k ip
        >> (if black_hole then drop_ingress (net.parse_ip ip) else pure tt)
      else replace_ip_profile fl net k effective

  unchanged : Option (NetworkParam F) → NetworkParam F → Overlay → Bool
  unchanged none p o = false
  unchanged (some old) p o = is_almost_equal fl old p && is_clear o

  stored : NetworkParam F → Handler F IP → Handler F IP
  stored p h = record h { state = insert p.to_ip p h.state }

  -- The body of the first loop of `Update`.
  unfoldable pub update_param : NetworkParam F → Pass F IP → Pass F IP
  unfolding unchanged stored
  update_param p s =
      let seen = record s { current_profiles = insert p.to_ip true s.current_profiles } in
      let o = s.handler.overlay in
      if unchanged (lookup p.to_ip s.handler.state) p o
      then seen
      else attempt (install o.black_hole p.to_ip (apply_overlay fl o p))
          (record seen { handler = stored p s.handler })

  unfoldable pub update_params : List (NetworkParam F) → Pass F IP → Pass F IP
  update_params [] s = s
  update_params (p ∷ ps) s = update_params ps (update_param p s)

  -- `delete(h.state, ip)`, and the release of the minor.
  forgotten : String → Handler F IP → Handler F IP
  forgotten ip h = record h {
    state = delete ip h.state;
    world = record (h.world) { minors = release ip h.world.minors };
  }

  unfoldable pub retired : Result (Failure F IP) (Unit {0}) → String → Pass F IP → Pass F IP
  unfolding forgotten
  retired (ok u) ip s = record s { handler = forgotten ip s.handler }
  retired (err e) ip s = record s { errors = s.errors ++ e ∷ [] }

  -- The body of the second loop of `Update`.
  unfoldable pub retire : String → Bool → Pass F IP → Pass F IP
  unfolding retired
  retire ip true s = s
  retire ip false s =
      let (r, w) = remove_ip_profile net k ip s.handler.world in
      retired r ip (record s { handler = record (s.handler) { world = w } })

  unfoldable pub retire_all : Map String Bool → Pass F IP → Pass F IP
  retire_all [] s = s
  retire_all ((ip, visible) ∷ m) s = retire_all m (retire ip visible s)

  start_pass : Handler F IP → Pass F IP
  start_pass h = record { handler = h; current_profiles = none_visible h.state; errors = [] }

  -- The two loops of `Update`.
  unfoldable pub full_pass : List (NetworkParam F) → Handler F IP → Pass F IP
  unfolding start_pass
  full_pass params h =
      let s = update_params params (start_pass h) in retire_all s.current_profiles s

  -- The errors, and the new handler. The caller is given an error if there is one or more.
  unfoldable pub update : List (NetworkParam F) → Handler F IP → List (Failure F IP) × Handler F IP
  update params h =
      if h.disabled then ([], h) else (let s = full_pass params h in (s.errors, s.handler))

  -- The loop of reapplyAllLocked over the peers. It ends with the first error.
  unfoldable pub reapply : Overlay → Map String (NetworkParam F) → Action F IP (Unit {0})
  reapply o [] = pure tt
  reapply o ((ip, p) ∷ m) = install o.black_hole ip (apply_overlay fl o p) >> reapply o m

  unfoldable pub apply_fault_overlay :
      Overlay → Handler F IP → Result (Failure F IP) (Unit {0}) × Handler F IP
  apply_fault_overlay o h =
      if h.disabled
      then (ok tt, h)
      else let (r, w) = reapply o h.state h.world in (r, record h { overlay = o; world = w })

  unfoldable pub clear_fault_overlay :
      Handler F IP → Result (Failure F IP) (Unit {0}) × Handler F IP
  unfolding apply_fault_overlay
  clear_fault_overlay = apply_fault_overlay clear_overlay
