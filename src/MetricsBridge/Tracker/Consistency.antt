-- ===== src/MetricsBridge/Tracker/Consistency.antt =====
-- The pending map, the insertion order and the bound of the tracker of
-- internal-components/metrics-bridge/internal/state/state.go.
use yass_simulator.Base.{
  ◌+◌, ℕ, suc, ◌≤◌, ◌<◌, String, ◌≡◌, refl, ap, ◌∙◌, subst, false, Option, none, some, List, [],
  ◌∷◌, ◌++◌, arith, ◌==◌, string_eq, length, length-append, contains, without, Distinct,
  without_head, Distinct-snoc, Bool-cases, inl, inr,
}
use yass_simulator.Base.Int.{ℤ, pos, ◌≤ℤ◌, ltb_ℤ, pos_part, neg_part}
use yass_simulator.Base.Map.{
  lookup, insert, delete, keys, lookup-none, keys-insert_new, keys-delete, length-keys,
}
use yass_simulator.MetricsBridge.Tracker.{
  PendingPut, Tracker, new_tracker, drop_oldest_locked, enforce_max_size, add_pending, record_put,
  store_put, put_key, drop_oldest_from,
}

-- The insertion order lists the pending keys, each once. The entries of the model's map lie in
-- the order of insertion.
pub record IsConsistent (t : Tracker) : Type 0 where
  pub order_keys : keys t.pending ≡ t.insert_order
  pub distinct : Distinct t.insert_order

pub record IsBounded (t : Tracker) : Type 0 where
  pub consistent : IsConsistent t
  pub within : pos (length t.pending) ≤ℤ t.max_size

pub new_tracker-IsBounded : (d n : ℤ) → pos 0 ≤ℤ n → IsBounded (new_tracker d n)
unfolding new_tracker
new_tracker-IsBounded d n fits = record {
  consistent = record { order_keys = refl; distinct = tt };
  within = omega arith;
}

pub add_pending-IsConsistent :
    (key name source : String) (size when : ℤ) (t : Tracker)
    → IsConsistent t
    → lookup key t.pending ≡ none
    → IsConsistent (add_pending key name source size when t)
unfolding add_pending
add_pending-IsConsistent key name source size when t c absent = record {
  order_keys = keys-insert_new key _ t.pending absent ∙ ap (λ ks. ks ++ key ∷ []) c.order_keys;
  distinct =
      Distinct-snoc t.insert_order key c.distinct
        (subst (λ ks. contains ks key ≡ false) c.order_keys (lookup-none key t.pending absent));
}

pub length-add_pending :
    (key name source : String) (size when : ℤ) (t : Tracker)
    → lookup key t.pending ≡ none
    → length (add_pending key name source size when t).pending ≡ suc (length t.pending)
unfolding add_pending
length-add_pending key name source size when t absent =
    let p : PendingPut = record {
      source = source;
      size_bytes = size;
      when = when;
      name = name;
      received = [];
    } in
    omega (
      arith,
      length-keys (insert key p t.pending),
      length-keys t.pending,
      ap (λ (l : List String). length l) (keys-insert_new key p t.pending absent),
      length-append (keys t.pending) (key ∷ []),
    )

-- Without its oldest entry a tracker that is not empty is one entry shorter.
record Dropped (n : ℕ) (t : Tracker) : Type 0 where
  consistent : IsConsistent t
  shorter : suc (length t.pending) ≡ n

drop_oldest_from-Dropped :
    (k : String) (ks : List String) (t : Tracker)
    → keys t.pending ≡ k ∷ ks
    → Distinct (k ∷ ks)
    → Dropped (length t.pending) (drop_oldest_from (k ∷ ks) t)
unfolding drop_oldest_from
drop_oldest_from-Dropped k ks t e d =
    let left : keys (delete k t.pending) ≡ ks =
      keys-delete k t.pending ∙ (ap (without k) e ∙ without_head k ks d.0) in
    record {
      consistent = record { order_keys = left; distinct = d.1 };
      shorter = omega (
        arith,
        length-keys (delete k t.pending),
        length-keys t.pending,
        ap (λ (l : List String). length l) left,
        ap (λ (l : List String). length l) e,
      );
    }

drop_oldest_locked-Dropped :
    (t : Tracker) (order : List String)
    → t.insert_order ≡ order
    → IsConsistent t
    → 0 < length t.pending
    → Dropped (length t.pending) (drop_oldest_from order t)
drop_oldest_locked-Dropped t [] e c p =
    absurd
      (omega (arith, length-keys t.pending, ap (λ (l : List String). length l) (c.order_keys ∙ e)))
drop_oldest_locked-Dropped t (k ∷ ks) e c p =
    drop_oldest_from-Dropped k ks t (c.order_keys ∙ e) (subst (λ l. Distinct l) e c.distinct)

max_size-drop_oldest_from :
    (order : List String) (t : Tracker) → (drop_oldest_from order t).max_size ≡ t.max_size
unfolding drop_oldest_from
max_size-drop_oldest_from [] t = refl
max_size-drop_oldest_from (k ∷ ks) t = refl

-- A tracker that is over its bound by one entry at most is brought back.
enforce_max_size-IsBounded :
    (t : Tracker)
    → IsConsistent t
    → neg_part t.max_size ≤ pos_part t.max_size
    → length t.pending + neg_part t.max_size ≤ suc (pos_part t.max_size)
    → IsBounded (enforce_max_size t)
unfolding enforce_max_size drop_oldest_locked
enforce_max_size-IsBounded t c natural h =
    elim (Bool-cases (ltb_ℤ t.max_size (pos (length t.pending)))) [
      | inl over ↦
          let d : Dropped (length t.pending) (drop_oldest_from t.insert_order t) =
            drop_oldest_locked-Dropped t t.insert_order refl c (ground arith) in
          rw over (record {
            consistent = d.consistent;
            within = omega (
              arith,
              d.shorter,
              ap pos_part (max_size-drop_oldest_from t.insert_order t),
              ap neg_part (max_size-drop_oldest_from t.insert_order t),
            );
          })
      | inr fits ↦ rw fits (record { consistent = c; within = ground arith })
    ]

store_put-IsBounded :
    (found : Option PendingPut) (key name source : String) (size when : ℤ) (t : Tracker)
    → lookup key t.pending ≡ found
    → IsBounded t
    → IsBounded (store_put found key name source size when t)
unfolding store_put
store_put-IsBounded (some p) key name source size when t e b = b
store_put-IsBounded none key name source size when t e b =
    let added = add_pending key name source size when t in
    enforce_max_size-IsBounded added
      (add_pending-IsConsistent key name source size when t b.consistent e)
      (unfold add_pending in omega (arith, b.within))
      (unfold add_pending in
        omega (arith, b.within, length-add_pending key name source size when t e))

-- RecordPut keeps a bounded tracker bounded: the insertion order lists the pending keys, each
-- once, and no more than `max_size` PUTs are pending.
pub record_put-IsBounded :
    (md5sum name source : String) (size when : ℤ) (t : Tracker)
    → IsBounded t
    → IsBounded (record_put md5sum name source size when t)
unfolding record_put
record_put-IsBounded md5sum name source size when t b =
    let stored =
      store_put-IsBounded (lookup (put_key md5sum name) t.pending) (put_key md5sum name) name source
        size when t refl b in
    elim (Bool-cases (source == "")) [
      | inl none_given ↦ rw none_given b
      | inr given ↦ elim (Bool-cases (put_key md5sum name == "")) [
        | inl no_key ↦ rw (given, no_key) b
        | inr keyed ↦ rw (given, keyed) stored
      ]
    ]
