-- ===== src/MetricsBridge/Tracker/SharedNames.antt =====
-- The name index of internal-components/metrics-bridge/internal/state/state.go, where two files with
-- different md5sums carry one name.
use yass_simulator.Base.{
  String, ◌≡◌, ◌≢◌, refl, ap, ◌∙◌, subst, true, false, Option, none, some, List, [], ◌∷◌, arith,
  ◌==◌, string_eq, string_beq_iff, contains, Bool-cases, inl, inr,
}
use yass_simulator.Base.Int.{ℤ, ◌-ℤ◌, ltb_ℤ}
use yass_simulator.Base.Map.{lookup, lookup-delete, member, contains-keys}
use yass_simulator.MetricsBridge.Tracker.{
  PendingPut, Tracker, match_receive, receive, resolve, or_by_name, find_by_name, by_name_key,
  unknown, Sweep, sweep, sweep_found, evict_expired, forget_name,
}
use yass_simulator.MetricsBridge.Tracker.Consistency.{IsConsistent}
use yass_simulator.MetricsBridge.Tracker.Eviction.{
  unexpired, lookup-sweep_found, lookup-evict_expired,
}

sweep_found_forgets :
    (o : Option PendingPut) (threshold : ℤ) (k name : String) (s : Sweep)
    → lookup name s.swept.by_name ≡ none
    → lookup name (sweep_found o threshold k s).swept.by_name ≡ none
unfolding sweep_found forget_name
sweep_found_forgets none threshold k name s h = h
sweep_found_forgets (some p) threshold k name s h =
    ground (arith, lookup-delete p.name name s.swept.by_name)

sweep_forgets :
    (threshold : ℤ) (ks : List String) (name : String) (s : Sweep)
    → lookup name s.swept.by_name ≡ none
    → lookup name (sweep threshold ks s).swept.by_name ≡ none
unfolding sweep
sweep_forgets threshold [] name s h = h
sweep_forgets threshold (k ∷ ks) name s h =
    sweep_forgets threshold ks name (sweep_found (lookup k s.swept.pending) threshold k s)
      (sweep_found_forgets (lookup k s.swept.pending) threshold k name s h)

sweep_found_expired :
    (threshold : ℤ) (k : String) (p : PendingPut) (s : Sweep)
    → p.name ≢ ""
    → ltb_ℤ p.when threshold ≡ true
    → lookup p.name (sweep_found (some p) threshold k s).swept.by_name ≡ none
unfolding sweep_found forget_name
sweep_found_expired threshold k p s named old = ground (
  arith,
  lookup-delete p.name p.name s.swept.by_name,
  string_beq_iff p.name p.name,
  string_beq_iff p.name "",
)

sweep_expired :
    (threshold : ℤ) (ks : List String) (k : String) (p : PendingPut) (s : Sweep)
    → contains ks k ≡ true
    → lookup k s.swept.pending ≡ some p
    → p.name ≢ ""
    → ltb_ℤ p.when threshold ≡ true
    → lookup p.name (sweep threshold ks s).swept.by_name ≡ none
unfolding sweep contains
sweep_expired threshold [] k p s c e named old = cc
sweep_expired threshold (j ∷ ks) k p s c e named old =
    let s' = sweep_found (lookup j s.swept.pending) threshold j s in
    elim (Bool-cases (j == k)) [
      | inl same ↦
          sweep_forgets threshold ks p.name s'
            (rw ((string_beq_iff j k).0 same, e) (sweep_found_expired threshold k p s named old))
      | inr other ↦
          sweep_expired threshold ks k p s' (ground arith)
            (lookup-sweep_found (lookup j s.swept.pending) threshold j k s refl ∙ rw (other, e))
            named old
    ]

unknown_name :
    (name receiver : String) (t : Tracker)
    → lookup name t.by_name ≡ none
    → (match_receive "" name receiver t).0 ≡ unknown
unfolding match_receive receive resolve or_by_name find_by_name by_name_key
unknown_name name receiver t h = ground arith

dropped_name :
    (now : ℤ) (t : Tracker) (k : String) (p : PendingPut)
    → IsConsistent t
    → lookup k t.pending ≡ some p
    → p.name ≢ ""
    → ltb_ℤ p.when (now -ℤ t.deadline) ≡ true
    → lookup p.name (evict_expired now t).1.by_name ≡ none
unfolding evict_expired member
dropped_name now t k p c e named o =
    sweep_expired (now -ℤ t.deadline) t.insert_order k p
      (record { kept = []; lost = []; swept = t })
      (subst (λ l. contains l k ≡ true) c.order_keys (contains-keys k t.pending ∙ rw (e, member))) e
      named o

-- Two PUTs of one name are pending in a consistent tracker, and one of them has expired. After
-- EvictExpired the other is still pending if it is young, and a receipt that carries the name and no
-- md5sum is not joined with it: the eviction has dropped the name from the index, which may have
-- led to the younger PUT.
pub evict_expired-shared_name :
    (now : ℤ) (t : Tracker) (old_key young_key receiver : String) (old young : PendingPut)
    → IsConsistent t
    → lookup old_key t.pending ≡ some old
    → lookup young_key t.pending ≡ some young
    → old.name ≡ young.name
    → old.name ≢ ""
    → ltb_ℤ old.when (now -ℤ t.deadline) ≡ true
    → ltb_ℤ young.when (now -ℤ t.deadline) ≡ false
    → let t' = (evict_expired now t).1 in
      (lookup young_key t'.pending ≡ some young)
      × ((match_receive "" young.name receiver t').0 ≡ unknown)
evict_expired-shared_name now t old_key young_key receiver old young c e f same named o y = (
  lookup-evict_expired now t young_key c ∙ ap (unexpired (now -ℤ t.deadline)) f ∙ rw y,
  unknown_name young.name receiver (evict_expired now t).1
      (rw (← same) (dropped_name now t old_key old c e named o)),
)
