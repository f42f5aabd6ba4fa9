-- ===== src/MetricsBridge/Tracker/Eviction.antt =====
-- `EvictExpired` of internal-components/metrics-bridge/internal/state/state.go.
use yass_simulator.Base.{
  ℕ, suc, ◌+◌, String, ◌≡◌, refl, sym, ap, ◌∙◌, subst, false, Option, none, some, List, [], ◌∷◌,
  ◌++◌, arith, ◌==◌, string_eq, string_beq_iff, if◌then◌else◌, contains, without, without_middle,
  without-Distinct, Distinct, Option-cases, Bool-cases, inl, inr, contains-append,
}
use mathlib.Core.List.{append_assoc, append-nil}
use yass_simulator.Base.Int.{ℤ, ◌-ℤ◌, ltb_ℤ}
use yass_simulator.Base.Map.{
  Map, lookup, delete, keys, keys-delete, lookup-delete, lookup_absent, lookup-none, lookup-insert,
}
use yass_simulator.MetricsBridge.Tracker.{
  PendingPut, Tracker, Sweep, sweep, sweep_found, evict_expired, bump,
}
use yass_simulator.MetricsBridge.Tracker.Consistency.{IsConsistent}

-- A pending entry with the expired ones left out.
abbrev pub unexpired : ℤ → Option PendingPut → Option PendingPut
unexpired threshold none = none
unexpired threshold (some p) = if ltb_ℤ p.when threshold then none else some p

pub lookup-sweep_found :
    (o : Option PendingPut) (threshold : ℤ) (k j : String) (s : Sweep)
    → lookup k s.swept.pending ≡ o
    → lookup j (sweep_found o threshold k s).swept.pending ≡ (
        if k == j then unexpired threshold (lookup j s.swept.pending) else lookup j s.swept.pending)
unfolding sweep_found
lookup-sweep_found none threshold k j s e = ground (arith, string_beq_iff k j)
lookup-sweep_found (some p) threshold k j s e =
    ground (arith, string_beq_iff k j, lookup-delete k j s.swept.pending)

lookup-sweep :
    (threshold : ℤ) (ks : List String) (j : String) (s : Sweep)
    → lookup j (sweep threshold ks s).swept.pending ≡ (
        if contains ks j
        then unexpired threshold (lookup j s.swept.pending)
        else lookup j s.swept.pending)
unfolding sweep contains
lookup-sweep threshold [] j s = refl
lookup-sweep threshold (k ∷ ks) j s = ground (
  arith,
  lookup-sweep threshold ks j (sweep_found (lookup k s.swept.pending) threshold k s),
  lookup-sweep_found (lookup k s.swept.pending) threshold k j s refl,
)

-- EvictExpired on a consistent tracker removes the pending PUTs that are older than the deadline,
-- and no others.
pub lookup-evict_expired :
    (now : ℤ) (t : Tracker) (j : String)
    → IsConsistent t
    → lookup j (evict_expired now t).1.pending ≡ unexpired (now -ℤ t.deadline) (lookup j t.pending)
unfolding evict_expired
lookup-evict_expired now t j c = ground (
  arith,
  lookup-sweep (now -ℤ t.deadline) t.insert_order j (record { kept = []; lost = []; swept = t }),
  lookup_absent j t.pending,
  c.order_keys,
)

-- Between two steps of the sweep the pending keys are those kept and those still to come.
record Sweeping (ks : List String) (s : Sweep) : Type 0 where
  order : keys s.swept.pending ≡ s.kept ++ ks
  distinct : Distinct (s.kept ++ ks)

sweep_found-Sweeping :
    (threshold : ℤ) (k : String) (ks : List String) (s : Sweep)
    → Sweeping (k ∷ ks) s
    → Sweeping ks (sweep_found (lookup k s.swept.pending) threshold k s)
unfolding sweep_found
sweep_found-Sweeping threshold k ks s h = elim (Option-cases (lookup k s.swept.pending)) [
  | inl absent ↦
      let missing : contains (s.kept ++ k ∷ ks) k ≡ false =
        subst (λ l. contains l k ≡ false) h.order (lookup-none k s.swept.pending absent) in
      absurd (
        unfold contains in
        ground (arith, missing, contains-append s.kept (k ∷ ks) k, string_beq_iff k k))
  | inr (p, e) ↦
      let gone : keys (delete k s.swept.pending) ≡ s.kept ++ ks =
        keys-delete k s.swept.pending
        ∙ (ap (without k) h.order ∙ without_middle k s.kept ks h.distinct) in
      let regroup : s.kept ++ k ∷ ks ≡ (s.kept ++ k ∷ []) ++ ks =
        sym (append_assoc s.kept (k ∷ []) ks) in
      rw e (elim (Bool-cases (ltb_ℤ p.when threshold)) [
        | inl old ↦ rw old (record {
          order = gone;
          distinct =
              subst (λ l. Distinct l) (without_middle k s.kept ks h.distinct)
                (without-Distinct k (s.kept ++ k ∷ ks) h.distinct);
        })
        | inr young ↦ rw young (record {
          order = h.order ∙ regroup;
          distinct = subst (λ l. Distinct l) regroup h.distinct;
        })
      ])
]

sweep-Sweeping :
    (threshold : ℤ) (ks : List String) (s : Sweep)
    → Sweeping ks s
    → Sweeping [] (sweep threshold ks s)
unfolding sweep
sweep-Sweeping threshold [] s h = h
sweep-Sweeping threshold (k ∷ ks) s h =
    sweep-Sweeping threshold ks (sweep_found (lookup k s.swept.pending) threshold k s)
      (sweep_found-Sweeping threshold k ks s h)

-- EvictExpired keeps a consistent tracker consistent.
pub evict_expired-IsConsistent :
    (now : ℤ) (t : Tracker) → IsConsistent t → IsConsistent (evict_expired now t).1
unfolding evict_expired
evict_expired-IsConsistent now t c =
    let start : Sweep = record { kept = []; lost = []; swept = t } in
    let h =
      sweep-Sweeping (now -ℤ t.deadline) t.insert_order start
        (record { order = c.order_keys; distinct = c.distinct }) in
    record {
      order_keys = h.order ∙ append-nil _;
      distinct = subst (λ l. Distinct l) (append-nil _) h.distinct;
    }

-- The number of expired PUTs of a source in a map of pending PUTs.
abbrev pub weight : ℤ → String → PendingPut → ℕ
weight threshold source p =
    if ltb_ℤ p.when threshold then (if p.source == source then 1 else 0) else 0

unfoldable pub expired_of : ℤ → String → Map String PendingPut → ℕ
expired_of threshold source [] = 0
expired_of threshold source ((k, p) ∷ m) = weight threshold source p + expired_of threshold source m

abbrev pub count_of : String → Map String ℕ → ℕ
count_of source lost = elim (lookup source lost) [ none ↦ 0 | some n ↦ n ]

expired_of-delete_absent :
    (threshold : ℤ) (source k : String) (m : Map String PendingPut)
    → contains (keys m) k ≡ false
    → expired_of threshold source (delete k m) ≡ expired_of threshold source m
unfolding expired_of delete contains
expired_of-delete_absent threshold source k [] h = refl
expired_of-delete_absent threshold source k ((j, p) ∷ m) h =
    ground (arith, expired_of-delete_absent threshold source k m)

expired_of-delete :
    (threshold : ℤ) (source k : String) (p : PendingPut) (m : Map String PendingPut)
    → Distinct (keys m)
    → lookup k m ≡ some p
    → expired_of threshold source m
      ≡ weight threshold source p + expired_of threshold source (delete k m)
unfolding expired_of delete lookup
expired_of-delete threshold source k p [] d h = cc
expired_of-delete threshold source k p ((j, q) ∷ m) d h = ground (
  arith,
  string_beq_iff j k,
  expired_of-delete threshold source k p m d.1,
  expired_of-delete_absent threshold source k m,
)

count_of-bump :
    (source other : String) (lost : Map String ℕ)
    → count_of other (bump source lost)
      ≡ (if source == other then suc (count_of other lost) else count_of other lost)
unfolding bump
count_of-bump source other lost = ground (
  arith,
  lookup-insert source other (suc (count_of source lost)) lost,
  string_beq_iff source other,
)

-- A step of the sweep moves an expired PUT into the count of its source.
tally-sweep_found :
    (threshold : ℤ) (k source : String) (s : Sweep)
    → Distinct (keys s.swept.pending)
    → let s' = sweep_found (lookup k s.swept.pending) threshold k s in
      count_of source s'.lost + expired_of threshold source s'.swept.pending
      ≡ count_of source s.lost + expired_of threshold source s.swept.pending
unfolding sweep_found
tally-sweep_found threshold k source s d = elim (Option-cases (lookup k s.swept.pending)) [
  | inl absent ↦ rw absent
  | inr (p, e) ↦ rw e (
      ground (
        arith,
        count_of-bump p.source source s.lost,
        expired_of-delete threshold source k p s.swept.pending d e,
      ))
]

tally-sweep :
    (threshold : ℤ) (ks : List String) (source : String) (s : Sweep)
    → Sweeping ks s
    → let s' = sweep threshold ks s in
      count_of source s'.lost + expired_of threshold source s'.swept.pending
      ≡ count_of source s.lost + expired_of threshold source s.swept.pending
unfolding sweep
tally-sweep threshold [] source s h = refl
tally-sweep threshold (k ∷ ks) source s h =
    tally-sweep threshold ks source (sweep_found (lookup k s.swept.pending) threshold k s)
      (sweep_found-Sweeping threshold k ks s h)
    ∙ tally-sweep_found threshold k source s (subst (λ l. Distinct l) (sym h.order) h.distinct)

evict_tally :
    (now : ℤ) (t : Tracker) (source : String)
    → IsConsistent t
    → count_of source (evict_expired now t).0
        + expired_of (now -ℤ t.deadline) source (evict_expired now t).1.pending
      ≡ expired_of (now -ℤ t.deadline) source t.pending
unfolding evict_expired lookup
evict_tally now t source c = omega (
  arith,
  tally-sweep (now -ℤ t.deadline) t.insert_order source (record { kept = []; lost = []; swept = t })
      (record { order = c.order_keys; distinct = c.distinct }),
)

-- Where every pending PUT is young, none is expired.
expired_of_young :
    (threshold : ℤ) (source : String) (m : Map String PendingPut)
    → Distinct (keys m)
    → ((j : String) → lookup j m ≡ unexpired threshold (lookup j m))
    → expired_of threshold source m ≡ 0
unfolding expired_of lookup
expired_of_young threshold source [] d young = refl
expired_of_young threshold source ((k, p) ∷ m) d young = ground (
  arith,
  young k,
  string_beq_iff k k,
  expired_of_young threshold source m d.1
      (λ j. ground (arith, young j, string_beq_iff k j, lookup_absent k m d.0)),
)

unexpired-unexpired :
    (threshold : ℤ) (o : Option PendingPut)
    → unexpired threshold o ≡ unexpired threshold (unexpired threshold o)
unexpired-unexpired threshold none = refl
unexpired-unexpired threshold (some p) = ground arith

-- EvictExpired on a consistent tracker reports, for each source, how many of its pending PUTs were
-- older than the deadline.
pub count_of-evict_expired :
    (now : ℤ) (t : Tracker) (source : String)
    → IsConsistent t
    → count_of source (evict_expired now t).0 ≡ expired_of (now -ℤ t.deadline) source t.pending
count_of-evict_expired now t source c =
    let threshold = now -ℤ t.deadline in
    let after = evict_expired-IsConsistent now t c in
    let none_left : expired_of threshold source (evict_expired now t).1.pending ≡ 0 =
      expired_of_young threshold source (evict_expired now t).1.pending
        (subst (λ l. Distinct l) (sym after.order_keys) after.distinct)
        (λ j.
          rw (lookup-evict_expired now t j c)
            (unexpired-unexpired threshold (lookup j t.pending))) in
    omega (arith, none_left, evict_tally now t source c)
