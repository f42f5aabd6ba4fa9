-- ===== src/Mqtt2Prom/Collector/Evicted.antt =====
-- The series of a histogram in the collector, from its snapshot to the end of its aggregator
-- (internal-components/mqtt2prom/main.go and histogram.go).
use yass_simulator.Base.{
  ℕ, ◌≡◌, refl, ap, ◌∙◌, true, false, ◌||◌, Option, none, some, [], arith, Comparable,
}
use yass_simulator.Base.Map.{Map, lookup, insert, delete, lookup-insert}
use yass_simulator.Mqtt2Prom.Labels.{
  Text, text_beq, text_beq_iff, text_eq, Labels, Meta, sorted_keys, ordered_values, same_or_subset,
  merge_labels, serialize_labels,
}
use yass_simulator.Mqtt2Prom.Labels.RoundTrip.{are_plain}
use yass_simulator.Mqtt2Prom.Histogram.{HistogramStore}
use yass_simulator.Mqtt2Prom.Collector.{
  Snapshot, histogram, empty, RegistryKey, key_beq_iff, key_eq, Client, RegisteredVec, Collector,
  bucket_map, set_series, store_series, store_in, handled, handle_snapshot, evict_aggregator_locked,
  handle_meta,
}
use yass_simulator.Mqtt2Prom.Collector.Series.{kind-set_series, labels-set_series, shown-set_series}
use yass_simulator.Mqtt2Prom.Collector.Dropped.{shown_by, shown_in, HasVec, gone-evict_own}

module _ {F G : Type 0} ⦃e : Comparable F⦄ (client : Client F G) where
  stored_by : Snapshot F → Labels → RegisteredVec F G → Collector F G → Collector F G
  stored_by s labels v c = record c {
    vecs = insert s.metric (set_series client s (ordered_values v.labels labels) v) c.vecs;
    owners =
        insert (record { metric = s.metric; hash = serialize_labels labels }) s.aggregator c.owners;
  }

  handle_snapshot-eq-stored_by :
      (s : Snapshot F) (m : Meta) (v : RegisteredVec F G) (c : Collector F G)
      → (text_beq s.metric [] || text_beq s.aggregator []) ≡ false
      → lookup s.aggregator c.metas ≡ some m
      → lookup s.metric c.vecs ≡ some v
      → same_or_subset v.labels (sorted_keys (merge_labels s.labels m)) ≡ true
      → handle_snapshot client (some s) c ≡ stored_by s (merge_labels s.labels m) v c
  unfolding handle_snapshot handled store_in store_series stored_by
  handle_snapshot-eq-stored_by s m v c given known found fits = rw given (
      ap (λ (o : Option Meta). handled client s o c) known
      ∙ ap (λ (o : Option (RegisteredVec F G)). store_in client s (merge_labels s.labels m) o c)
          found
      ∙ rw fits refl)

  lookup-stored_by :
      (s : Snapshot F) (labels : Labels) (v : RegisteredVec F G) (c : Collector F G)
      → lookup s.metric (stored_by s labels v c).vecs
        ≡ some (set_series client s (ordered_values v.labels labels) v)
  unfolding stored_by
  lookup-stored_by s labels v c =
      lookup-insert s.metric s.metric (set_series client s (ordered_values v.labels labels) v)
        c.vecs
      ∙ ground (arith, text_beq_iff s.metric s.metric)

  HasVec-stored_by :
      (s : Snapshot F) (labels : Labels) (v : RegisteredVec F G) (c : Collector F G)
      (metas : Map Text Meta)
      → v.kind ≡ histogram
      → HasVec s.metric v.labels (record (stored_by s labels v c) { metas = metas })
  unfolding stored_by
  HasVec-stored_by s labels v c metas kind = record {
    vec = set_series client s (ordered_values v.labels labels) v;
    found = lookup-stored_by s labels v c;
    kind = kind-set_series client s (ordered_values v.labels labels) v ∙ kind;
    labels = labels-set_series client s (ordered_values v.labels labels) v;
  }

  owner-stored_by :
      (s : Snapshot F) (labels : Labels) (v : RegisteredVec F G) (c : Collector F G)
      → lookup
          (record { metric = s.metric; hash = serialize_labels labels })
          (stored_by s labels v c).owners
        ≡ some s.aggregator
  unfolding stored_by
  owner-stored_by s labels v c =
      let key : RegistryKey = record { metric = s.metric; hash = serialize_labels labels } in
      lookup-insert key key s.aggregator c.owners ∙ ground (arith, key_beq_iff key key)

  gone-handle_meta :
      (s : Snapshot F) (labels : Labels) (v : RegisteredVec F G) (c : Collector F G)
      → v.kind ≡ histogram
      → are_plain labels ≡ true
      → shown_in s.metric
          (ordered_values v.labels labels)
          (handle_meta client s.aggregator empty (stored_by s labels v c))
        ≡ none
  unfolding handle_meta evict_aggregator_locked
  gone-handle_meta s labels v c kind plain =
      let c' = stored_by s labels v c in
      let metas = delete s.aggregator c'.metas in
      gone-evict_own client s.metric v.labels labels plain s.aggregator c'.owners
        (record c' { metas = metas }) (owner-stored_by s labels v c)
        (HasVec-stored_by s labels v c metas kind)

  -- A snapshot of a histogram with its sum and its count, with a metric and an aggregator whose
  -- meta is known, for a metric whose vector is a store of histograms with the names of its labels,
  -- replaces what the collector shows for its labels; and when the meta of the aggregator goes
  -- right behind it, nothing is shown for them any more: where the names and values of the labels,
  -- with those of the meta, are ASCII and have no `=` and no `;`.
  pub handle_meta-handle_snapshot :
      (s : Snapshot F) (m : Meta) (v : RegisteredVec F G) (h : HistogramStore F) (c : Collector F G)
      (sum : F) (count : ℕ)
      → (text_beq s.metric [] || text_beq s.aggregator []) ≡ false
      → lookup s.aggregator c.metas ≡ some m
      → lookup s.metric c.vecs ≡ some v
      → same_or_subset v.labels (sorted_keys (merge_labels s.labels m)) ≡ true
      → v.kind ≡ histogram
      → v.histogram ≡ some h
      → h.label_names ≡ v.labels
      → s.sum ≡ some sum
      → s.count ≡ some count
      → are_plain (merge_labels s.labels m) ≡ true
      → let values = ordered_values v.labels (merge_labels s.labels m) in
        let c' = handle_snapshot client (some s) c in
        (shown_in s.metric values c'
          ≡ some (record {
            label_values = values;
            buckets = bucket_map s.buckets [];
            sum = sum;
            count = count;
          }))
        × (shown_in s.metric values (handle_meta client s.aggregator empty c') ≡ none)
  unfolding shown_in shown_by
  handle_meta-handle_snapshot s m v h c sum count given known found fits kind store names has_sum
        has_count plain =
      let labels = merge_labels s.labels m in
      let values = ordered_values v.labels labels in
      let same = handle_snapshot-eq-stored_by s m v c given known found fits in
      (
        ap (shown_in s.metric values) same
            ∙ ap (shown_by values) (lookup-stored_by s labels v c)
            ∙ shown-set_series client s labels v h sum count kind store names has_sum has_count,
        ap
              (λ (x : Collector F G).
                shown_in s.metric values (handle_meta client s.aggregator empty x))
              same
            ∙ gone-handle_meta s labels v c kind plain,
      )
