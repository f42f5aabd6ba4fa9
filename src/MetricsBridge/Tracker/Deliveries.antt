-- ===== src/MetricsBridge/Tracker/Deliveries.antt =====
-- From a PUT to its first receipt
-- (internal-components/metrics-bridge/internal/state/state.go).
use yass_simulator.Base.{
  suc, String, ◌≡◌, ◌≢◌, none, [], arith, ◌==◌, string_eq, string_beq_iff, if◌then◌else◌, length,
  contains, Bool-cases, inl, inr,
}
use yass_simulator.Base.Int.{ℤ, pos, ◌<ℤ◌, ltb_ℤ}
use yass_simulator.Base.Map.{lookup, lookup-insert}
use yass_simulator.MetricsBridge.Tracker.{
  PendingPut, Tracker, match_receive, resolve, find, or_by_name, find_by_name, by_name_key,
  delivered, unknown, record_put, store_put, put_key, enforce_max_size, add_pending,
}
use yass_simulator.MetricsBridge.Tracker.Consistency.{length-add_pending}
use yass_simulator.MetricsBridge.Tracker.Receipts.{answer, answer-match_receive}

length-add_pending_le :
    (k name source : String) (size when : ℤ) (t : Tracker)
    → pos (length t.pending) <ℤ t.max_size
    → lookup k t.pending ≡ none
    → enforce_max_size (add_pending k name source size when t)
      ≡ add_pending k name source size when t
length-add_pending_le k name source size when t room new =
    let n : length (add_pending k name source size when t).pending ≡ suc (length t.pending) =
      length-add_pending k name source size when t new in
    unfold enforce_max_size in
    elim (Bool-cases (
      ltb_ℤ (add_pending k name source size when t).max_size
        (pos (length (add_pending k name source size when t).pending)))) [
          | inl over ↦ absurd (unfold add_pending in ground (arith, over, n))
          | inr fits ↦ rw fits
        ]

-- A new PUT is added under its md5sum.
record_put_new :
    (md5sum name source : String) (size when : ℤ) (t : Tracker)
    → source ≢ ""
    → md5sum ≢ ""
    → lookup md5sum t.pending ≡ none
    → pos (length t.pending) <ℤ t.max_size
    → record_put md5sum name source size when t ≡ add_pending md5sum name source size when t
unfolding record_put put_key store_put
record_put_new md5sum name source size when t s m new room = ground (
  arith,
  string_beq_iff source "",
  string_beq_iff md5sum "",
  length-add_pending_le md5sum name source size when t room new,
)

answer-add_pending :
    (md5sum name source r : String) (size when : ℤ) (t : Tracker)
    → md5sum ≢ ""
    → let p : PendingPut = record {
      source = source;
      size_bytes = size;
      when = when;
      name = name;
      received = [];
    } in
      let t' = add_pending md5sum name source size when t in
      (answer (resolve md5sum name t') r ≡ delivered p)
      × (answer (resolve "" name t') r ≡ (if name == "" then unknown else delivered p))
unfolding add_pending resolve or_by_name find_by_name find by_name_key answer contains
answer-add_pending md5sum name source r size when t m =
    let p : PendingPut = record {
      source = source;
      size_bytes = size;
      when = when;
      name = name;
      received = [];
    } in
    (
      ground (
        arith,
        string_beq_iff md5sum "",
        lookup-insert md5sum md5sum p t.pending,
        string_beq_iff md5sum md5sum,
      ),
      ground (
        arith,
        string_beq_iff name "",
        string_beq_iff name name,
        string_beq_iff md5sum md5sum,
        lookup-insert md5sum md5sum p t.pending,
        lookup-insert name name md5sum t.by_name,
      ),
    )

-- A PUT with a source and an md5sum that is not pending, in a tracker with room for it, is found by
-- its md5sum, and also by its name alone if it has one: the first receipt of a receiver is answered
-- with the source, the size, the instant and the name of the PUT. By an empty name and no md5sum
-- nothing is found.
pub match_receive-record_put :
    (md5sum name source r : String) (size when : ℤ) (t : Tracker)
    → source ≢ ""
    → md5sum ≢ ""
    → lookup md5sum t.pending ≡ none
    → pos (length t.pending) <ℤ t.max_size
    → let t' = record_put md5sum name source size when t in
      let put =
        delivered (record {
          source = source;
          size_bytes = size;
          when = when;
          name = name;
          received = [];
        }) in
      ((match_receive md5sum name r t').0 ≡ put)
      × ((match_receive "" name r t').0 ≡ (if name == "" then unknown else put))
match_receive-record_put md5sum name source r size when t s m new room =
    rw (record_put_new md5sum name source size when t s m new room)
      (simp answer-match_receive (answer-add_pending md5sum name source r size when t m))
