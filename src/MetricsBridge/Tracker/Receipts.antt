-- ===== src/MetricsBridge/Tracker/Receipts.antt =====
-- `MatchReceive` of internal-components/metrics-bridge/internal/state/state.go: which PUT a receipt
-- is joined with, and how often.
use yass_simulator.Base.{
  String, ◌≡◌, ◌≢◌, refl, ap, ◌∙◌, Option, none, some, List, [], ◌∷◌, arith, ◌==◌, string_eq,
  string_beq_iff, if◌then◌else◌, length, contains, Option-cases, Bool-cases, inl, inr,
}
use yass_simulator.Base.Map.{lookup, insert, keys, keys-insert_old, lookup-insert, length-keys}
use yass_simulator.MetricsBridge.Tracker.{
  PendingPut, Tracker, match_receive, receive, resolve, find, or_by_name, find_by_name, by_name_key,
  Match, delivered, duplicate, unknown,
}
use yass_simulator.MetricsBridge.Tracker.Consistency.{IsBounded}

find_lem :
    (key k : String) (p : PendingPut) (t : Tracker)
    → find key t ≡ some (k, p)
    → lookup k t.pending ≡ some p
unfolding find
find_lem key k p t h = ground arith

-- A receipt is joined with an entry that is pending under its key.
pub resolve-pending :
    (md5sum name k : String) (p : PendingPut) (t : Tracker)
    → resolve md5sum name t ≡ some (k, p)
    → lookup k t.pending ≡ some p
unfolding resolve or_by_name find_by_name find
resolve-pending md5sum name k p t h = ground arith

receive-IsBounded :
    (found : Option (String × PendingPut)) (receiver : String) (t : Tracker)
    → ((k : String) (p : PendingPut) → found ≡ some (k, p) → lookup k t.pending ≡ some p)
    → IsBounded t
    → IsBounded (receive found receiver t).1
unfolding receive
receive-IsBounded none receiver t is_pending b = b
receive-IsBounded (some (k, p)) receiver t is_pending b =
    let q : PendingPut = record p { received = receiver ∷ p.received } in
    let same : keys (insert k q t.pending) ≡ keys t.pending =
      keys-insert_old k q p t.pending (is_pending k p refl) in
    elim (Bool-cases (contains p.received receiver)) [
      | inl seen ↦ rw seen b
      | inr new ↦ rw new (record {
        consistent = record {
          order_keys = same ∙ b.consistent.order_keys;
          distinct = b.consistent.distinct;
        };
        within = omega (
          arith,
          b.within,
          length-keys (insert k q t.pending),
          length-keys t.pending,
          ap (λ (l : List String). length l) same,
        );
      })
    ]

-- MatchReceive keeps a bounded tracker bounded.
pub match_receive-IsBounded :
    (md5sum name receiver : String) (t : Tracker)
    → IsBounded t
    → IsBounded (match_receive md5sum name receiver t).1
unfolding match_receive
match_receive-IsBounded md5sum name receiver t =
    receive-IsBounded (resolve md5sum name t) receiver t (λ k p. resolve-pending md5sum name k p t)

abbrev stored : String → PendingPut → String → Tracker → Tracker
stored k p r t = record t { pending = insert k (record p { received = r ∷ p.received }) t.pending }

-- After a receipt the same entry is found, with the receiver among its receivers.
resolve-stored :
    (md5sum name k r : String) (p : PendingPut) (t : Tracker)
    → resolve md5sum name t ≡ some (k, p)
    → resolve md5sum name (stored k p r t) ≡ some (k, record p { received = r ∷ p.received })
unfolding resolve or_by_name find_by_name find by_name_key
resolve-stored md5sum name k r p t h =
    let q : PendingPut = record p { received = r ∷ p.received } in
    ground (
      arith,
      lookup-insert k md5sum q t.pending,
      lookup-insert k k q t.pending,
      string_beq_iff k md5sum,
      string_beq_iff k k,
    )

-- Another receipt is not seen by a request that finds nothing.
resolve-stored-none :
    (md5sum name k r : String) (p : PendingPut) (t : Tracker)
    → lookup k t.pending ≡ some p
    → resolve md5sum name t ≡ none
    → resolve md5sum name (stored k p r t) ≡ none
unfolding resolve or_by_name find_by_name find by_name_key
resolve-stored-none md5sum name k r p t found h =
    let q : PendingPut = record p { received = r ∷ p.received } in
    elim (Option-cases (lookup name t.by_name)) [
      | inl absent ↦ ground (arith, lookup-insert k md5sum q t.pending, string_beq_iff k md5sum)
      | inr (j, e) ↦ ground (
        arith,
        lookup-insert k md5sum q t.pending,
        string_beq_iff k md5sum,
        lookup-insert k j q t.pending,
        string_beq_iff k j,
      )
    ]

-- What MatchReceive answers for the entry that it found.
unfoldable pub answer : Option (String × PendingPut) → String → Match
answer none r = unknown
answer (some (k, p)) r =
    if contains p.received r then duplicate else delivered (record p { received = [] })

pub answer-match_receive :
    (md5sum name r : String) (t : Tracker)
    → (match_receive md5sum name r t).0 ≡ answer (resolve md5sum name t) r
unfolding match_receive answer receive
answer-match_receive md5sum name r t = ground arith

-- A receipt that is repeated is answered as a duplicate, if the PUT was known, whatever the state
-- was: a delivery is counted at most once.
receive_twice :
    (found : Option (String × PendingPut)) (md5sum name r : String) (t : Tracker)
    → resolve md5sum name t ≡ found
    → (receive found r t).0 ≢ unknown
    → (match_receive md5sum name r (receive found r t).1).0 ≡ duplicate
unfolding receive
receive_twice none md5sum name r t e h = absurd (h refl)
receive_twice (some (k, p)) md5sum name r t e h = elim (Bool-cases (contains p.received r)) [
  | inl seen ↦ rw (seen, answer-match_receive, e) (unfold answer in rw seen)
  | inr new ↦
      rw (new, answer-match_receive, resolve-stored md5sum name k r p t e)
        (unfold answer contains in ground (arith, string_beq_iff r r))
]

-- A receipt for which MatchReceive found a PUT is answered as a duplicate when the same receiver
-- reports the same file again, whatever the tracker held.
pub match_receive-match_receive :
    (md5sum name r : String) (t : Tracker)
    → (match_receive md5sum name r t).0 ≢ unknown
    → (match_receive md5sum name r (match_receive md5sum name r t).1).0 ≡ duplicate
unfolding match_receive
match_receive-match_receive md5sum name r t h =
    receive_twice (resolve md5sum name t) md5sum name r t refl h

-- What another receipt leaves of an entry.
resolve-stored-some :
    (md5sum name k j r : String) (p w : PendingPut) (t : Tracker)
    → lookup k t.pending ≡ some p
    → resolve md5sum name t ≡ some (j, w)
    → resolve md5sum name (stored k p r t)
      ≡ some (j, if k == j then record p { received = r ∷ p.received } else w)
unfolding resolve or_by_name find_by_name find by_name_key
resolve-stored-some md5sum name k j r p w t found h =
    let q : PendingPut = record p { received = r ∷ p.received } in
    elim (Option-cases (lookup name t.by_name)) [
      | inl absent ↦ ground (
        arith,
        lookup-insert k md5sum q t.pending,
        lookup-insert k j q t.pending,
        string_beq_iff k md5sum,
        string_beq_iff k j,
      )
      | inr (i, e) ↦ ground (
        arith,
        lookup-insert k md5sum q t.pending,
        string_beq_iff k md5sum,
        lookup-insert k i q t.pending,
        string_beq_iff k i,
      )
    ]

answer_other :
    (found : Option (String × PendingPut)) (md5sum name k r s : String) (p : PendingPut)
    (t : Tracker)
    → lookup k t.pending ≡ some p
    → resolve md5sum name t ≡ found
    → r ≢ s
    → answer (resolve md5sum name (stored k p r t)) s ≡ answer found s
unfolding answer contains
answer_other none md5sum name k r s p t e h ne = rw (resolve-stored-none md5sum name k r p t e h)
answer_other (some (j, w)) md5sum name k r s p t e h ne =
    rw (resolve-stored-some md5sum name k j r p w t e h)
      (ground (arith, string_beq_iff k j, string_beq_iff r s, resolve-pending md5sum name j w t h))

receive_other :
    (found : Option (String × PendingPut)) (md5sum name r s : String) (t : Tracker)
    → ((k : String) (p : PendingPut) → found ≡ some (k, p) → lookup k t.pending ≡ some p)
    → r ≢ s
    → answer (resolve md5sum name (receive found r t).1) s ≡ answer (resolve md5sum name t) s
unfolding receive
receive_other none md5sum name r s t f ne = refl
receive_other (some (k, p)) md5sum name r s t f ne = elim (Bool-cases (contains p.received r)) [
  | inl seen ↦ rw seen
  | inr new ↦
      rw new (answer_other (resolve md5sum name t) md5sum name k r s p t (f k p refl) refl ne)
]

-- A receipt by one receiver changes no answer to another: what any other request by another
-- receiver is answered, for the same file or another, is what it was before.
pub match_receive_other :
    (md5sum name r md5sum' name' s : String) (t : Tracker)
    → r ≢ s
    → (match_receive md5sum' name' s (match_receive md5sum name r t).1).0
      ≡ (match_receive md5sum' name' s t).0
match_receive_other md5sum name r md5sum' name' s t ne =
    rw (answer-match_receive, answer-match_receive)
      (unfold match_receive in
        receive_other (resolve md5sum name t) md5sum' name' r s t
          (λ k p. resolve-pending md5sum name k p t) ne)
